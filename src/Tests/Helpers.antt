-- ===== src/Tests/Helpers.antt =====
-- pkg/helpers.
use baobab.Prelude.{
  ℕ, ◌<◌, ◌≤◌, ◌*◌, ◌≡◌, refl, arith, Bool, true, List, [], ◌∷◌, ◌==◌, ◌||◌, ◌&&◌, not,
  if◌then◌else◌, ◌↔◌,
}
use baobab.Prelude.Bytes.{Bytes, compare_bytes}
use baobab.Prelude.Sorted.{IsSorted}
use baobab.Prelude.Run.{done}
use baobab.Helpers.Search.{insert_binary_search, insert_binary_search_on}
use baobab.Helpers.Search.Locates.{Finds, insert_binary_search-Locates}
use baobab.Helpers.Flags.{bit_is_set, set_flag, unset_flag}
use baobab.Helpers.Flags.Bits.{bit_is_set-set_flag, bit_is_set-unset_flag}
use baobab.Helpers.Lsn.{ok, max_lsn, greater_lsn, is_multipage}
use baobab.Helpers.Lsn.Order.{max_lsn-greater_lsn, is_multipage-boundary}

abbrev odd_keys : List Bytes
odd_keys = (1 ∷ []) ∷ (3 ∷ []) ∷ (5 ∷ []) ∷ []

abbrev six : Bytes
six = 6 ∷ []

odd_keys-IsSorted : IsSorted odd_keys
unfolding compare_bytes
odd_keys-IsSorted = ((refl, (refl, tt)), ((refl, tt), (tt, tt)))

search_run : insert_binary_search odd_keys six 0 ≡ done 2
unfolding insert_binary_search insert_binary_search_on compare_bytes
search_run = refl

insert_binary_search-Locates_example : Finds odd_keys six 7 (insert_binary_search odd_keys six 7)
insert_binary_search-Locates_example =
    insert_binary_search-Locates odd_keys six 7 (omega arith) odd_keys-IsSorted

bit_is_set-set_flag_example : bit_is_set (set_flag 0x41 (7 ∷ [])) 6 ≡ (7 == 6 || bit_is_set 0x41 6)
bit_is_set-set_flag_example = bit_is_set-set_flag 0x41 7 6 (omega arith) (omega arith) (omega arith)

bit_is_set-unset_flag_example :
    bit_is_set (unset_flag 0xC1 (7 ∷ [])) 6 ≡ (not (7 == 6) && bit_is_set 0xC1 6)
bit_is_set-unset_flag_example =
    bit_is_set-unset_flag 0xC1 7 6 (omega arith) (omega arith) (omega arith)

abbrev early : Bytes
early = 1 ∷ 0 ∷ 0 ∷ 0 ∷ 8 ∷ 0 ∷ 0 ∷ 0 ∷ []

abbrev late : Bytes
late = 1 ∷ 0 ∷ 0 ∷ 0 ∷ 0 ∷ 1 ∷ 0 ∷ 0 ∷ []

max_lsn-greater_lsn_example :
    (g : Bool) × (greater_lsn late early ≡ done (ok g))
    × (max_lsn early late ≡ done (ok (if g then late else early)))
max_lsn-greater_lsn_example = max_lsn-greater_lsn early late (omega arith) (omega arith)

is_multipage-boundary_example :
    (b : Bool) × (is_multipage 8190 8200 8192 ≡ done (ok b))
    × ((b ≡ true) ↔ ((k : ℕ) × (8190 < k * 8192) × (k * 8192 ≤ 8200)))
is_multipage-boundary_example = is_multipage-boundary 8190 8200 8192 (omega arith) (omega arith)
