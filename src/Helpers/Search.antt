-- ===== src/Helpers/Search.antt =====
-- pkg/helpers/helpers.go: `InsertBinarySearch` over a node's key slice.
pub mod Steps
pub mod Locates
use baobab.Prelude.{ℕ, zero, suc, ◌+◌, ◌-◌, ◌/◌, ◌==◌, if◌then◌else◌, List}
use baobab.Prelude.{length, take, drop}
use baobab.Prelude.Run.{Run, done, stuck, index}
use baobab.Prelude.Bytes.{Bytes, less, same, greater, compare_bytes}

-- `bytes.Compare(searchKey, sortedList[m]) == -1 && bytes.Compare(searchKey, sortedList[m-1]) == 1`:
-- the cell before is read only where the first test holds.
abbrev pub between : List Bytes → Bytes → ℕ → Bytes → Run ℕ → Run ℕ → Run ℕ
between l key m at_m yes_case no_case = elim (compare_bytes key at_m) [
  | less ↦
      index l (m - 1)
        (λ before. elim (compare_bytes key before) [ greater ↦ yes_case | _ ↦ no_case ])
  | _ ↦ no_case
]

-- The two tests before a recursion are the two sides of `sortedList[m]`; `bytes.Compare` has no
-- fourth answer, so the final `return -1` is not reached.
unfoldable pub insert_binary_search_on : ℕ → List Bytes → Bytes → ℕ → Run ℕ
insert_binary_search_on zero l key start = stuck
insert_binary_search_on (suc fuel) l key start =
    let m = length l / 2 in
    let before = insert_binary_search_on fuel (take m l) key start in
    let after = insert_binary_search_on fuel (drop m l) key (m + start) in
    index l m (λ at_m. elim (compare_bytes at_m key) [
      | same ↦ done (m + start)
      | greater ↦
          if length l == 1 then done (m + start) else between l key m at_m (done (m + start)) before
      | less ↦
          if length l == 1 then done (m + start) else between l key m at_m (done (m + start)) after
    ])

-- Each recursion halves the slice, so its length bounds the depth.
unfoldable pub insert_binary_search : List Bytes → Bytes → ℕ → Run ℕ
insert_binary_search l key start = insert_binary_search_on (suc (length l)) l key start
