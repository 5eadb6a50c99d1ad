-- ===== src/Pager/FreeList.antt =====
-- pkg/pager/freelist.go: the ids of dead pages. `count` is not negative in the source either: it is
-- set to a length, counted up, and counted down only above 0. The lock is left out.
pub mod File
pub mod Reload
use baobab.Prelude.{ℕ, ◌+◌, ◌-◌, ◌^◌, ◌%◌, leb, if◌then◌else◌, Bool, true, List, ◌∷◌, ◌++◌, take}
use baobab.Prelude.Run.{Run, done, index, slice_from}

pub record FreeList : Type 0 where
  pub count : ℕ
  pub free_pages : List ℕ
  pub is_dirty : Bool

-- The bit pattern of the int32 -1.
abbrev pub minus_one : ℕ
minus_one = 2 ^ 32 - 1

-- The result is an int32, kept as its bit pattern.
unfoldable pub pop : FreeList → Run (ℕ × FreeList)
pop fl =
    if leb fl.count 0
    then done (minus_one, fl)
    else (index fl.free_pages (fl.count - 1) λ p. slice_from fl.free_pages fl.count λ rest. done (
      p % 2 ^ 32,
      record {
        count = fl.count - 1;
        free_pages = take (fl.count - 1) fl.free_pages ++ rest;
        is_dirty = true;
      },
    ))

unfoldable pub add : FreeList → ℕ → FreeList
add fl p = record { count = fl.count + 1; free_pages = p ∷ fl.free_pages; is_dirty = true }
