-- ===== src/Pager/Page.antt =====
-- pkg/pager/page.go: the header fields of a page. Latches are left out.
pub mod Layout
use baobab.Prelude.{
  ℕ, ◌+◌, ◌==◌, not, Bool, true, false, if◌then◌else◌, List, [], ◌∷◌, length, get_or, set, take,
  replicate, Option, none, some,
}
use baobab.Prelude.Bytes.{Bytes, le_u32}
use baobab.Prelude.Slice.{write_at, read_at}
use baobab.Helpers.Flags.{bit_is_set, set_flag, unset_flag}

abbrev pub page_size_bytes : ℕ
page_size_bytes = 8192

abbrev pub lsn_size_byte : ℕ
lsn_size_byte = 12

-- Positions of the header flags.
abbrev pub dead : ℕ
dead = 4

abbrev pub dirty : ℕ
dirty = 5

abbrev pub internal : ℕ
internal = 7

pub record Page : Type 0 where
  pub pge_data : Bytes
  pub page_id : ℕ

-- A new page value, or an error.
pub data Result : Type 0 where
  ok : Page → Result
  failed : Result

abbrev pub flags_of : Page → ℕ
flags_of p = get_or p.pge_data 0 0

abbrev with_flags : Page → ℕ → Page
with_flags p f = record p { pge_data = write_at p.pge_data 0 (f ∷ []) }

unfoldable pub update_right_ptr : Page → ℕ → Result
update_right_ptr p page_id =
    if page_id == 0
    then ok p
    else if not (bit_is_set (flags_of p) internal)
    then failed
    else ok (record p { pge_data = write_at p.pge_data 39 (le_u32 page_id) })

unfoldable pub mark_as_dead : Page → Page
mark_as_dead p = with_flags p (set_flag (flags_of p) (dead ∷ dirty ∷ []))

unfoldable pub mark_dirty : Page → Page
mark_dirty p = with_flags p (set_flag (flags_of p) (dirty ∷ []))

unfoldable pub mark_clean : Page → Page
mark_clean p = with_flags p (unset_flag (flags_of p) (dirty ∷ []))

unfoldable pub is_deleted : Page → Bool
is_deleted p = bit_is_set (flags_of p) dead

-- `none` is a nil slice.
unfoldable pub update_lsn : Page → Option Bytes → Result
update_lsn p none = failed
update_lsn p (some lsn) =
    if not (length lsn == lsn_size_byte)
    then failed
    else ok (record p { pge_data = write_at p.pge_data 5 lsn })

unfoldable pub get_lsn : Page → Bytes
get_lsn p = read_at p.pge_data 5 lsn_size_byte

unfoldable pub initialize_page : Page → ℕ → Bool → Result
initialize_page p page_id is_internal =
    if page_id == 0
    then failed
    else (let p' : Page = record {
      pge_data = write_at p.pge_data 1 (le_u32 page_id);
      page_id = page_id;
    } in
        ok (if is_internal then with_flags p' (set_flag (flags_of p') (internal ∷ [])) else p'))

unfoldable pub clear : Page → Page
clear p = record p { pge_data = replicate page_size_bytes 0 }

unfoldable pub is_internal : Page → Bool
is_internal p = bit_is_set (flags_of p) internal

unfoldable pub update_upper_offset : Page → ℕ → Page
update_upper_offset p off = record p { pge_data = write_at p.pge_data 25 (le_u32 off) }

unfoldable pub update_lower_offset : Page → ℕ → Page
update_lower_offset p off = record p { pge_data = write_at p.pge_data 29 (le_u32 off) }

unfoldable pub update_item_count : Page → ℕ → Page
update_item_count p count = record p { pge_data = write_at p.pge_data 17 (le_u32 count) }

unfoldable pub update_free_space : Page → ℕ → Page
update_free_space p free = record p { pge_data = write_at p.pge_data 21 (le_u32 free) }

unfoldable pub update_right_sibling : Page → ℕ → Page
update_right_sibling p page_id = record p { pge_data = write_at p.pge_data 43 (le_u32 page_id) }

unfoldable pub update_left_sibling : Page → ℕ → Page
update_left_sibling p page_id = record p { pge_data = write_at p.pge_data 47 (le_u32 page_id) }

-- `copy` stops at the end of the shorter side.
unfoldable pub set_lsn : Page → Bytes → Page
set_lsn p lsn = record p { pge_data = write_at p.pge_data 5 (take lsn_size_byte lsn) }

unfoldable pub swap_data : Page → Option Bytes → Result
swap_data p none = failed
swap_data p (some buff) = ok (record p { pge_data = buff })
