-- ===== src/Pager/Ids.antt =====
-- pkg/pager/pager.go: `NewPageId`, `NewPage`, `UpdateRootPage`, and what `WritePage` does with the id
-- of a dead page once the disk manager has answered.
pub mod Fresh
use baobab.Prelude.{
  ℕ, ◌+◌, ◌-◌, ◌*◌, ◌^◌, ◌%◌, leb, ltb, ◌==◌, not, if◌then◌else◌, Bool, length, get_or, Option,
  none, some,
}
use baobab.Prelude.Bytes.{Bytes}
use baobab.Prelude.Run.{Run, done, ◌>>=◌}
use baobab.Helpers.Flags.{bit_is_set}
use baobab.Pager.Page.{Page, Result, page_size_bytes, dead, initialize_page}
use baobab.Pager.FreeList
use baobab.Pager.FreeList.{FreeList}

-- The workers and the disk manager are left out. All numbers are uint32s.
pub record Pager : Type 0 where
  pub free_list : FreeList
  pub root_page_id : ℕ
  pub page_count : ℕ
  pub max_page_id : ℕ

-- A negative answer of the free list has the top bit set.
unfoldable pub new_page_id : Pager → Run (ℕ × Pager)
unfolding FreeList.pop
new_page_id pgr = FreeList.pop pgr.free_list >>= λ popped.
    (if leb (2 ^ 31) popped.0
      then done (
        (pgr.max_page_id + 1) % 2 ^ 32,
        record pgr { free_list = popped.1; max_page_id = (pgr.max_page_id + 1) % 2 ^ 32 },
      )
      else done (popped.0, record pgr { free_list = popped.1 }))

-- The new page and the new pager; `none` is an error, for a nil page or the page id 0.
unfoldable pub new_page : Pager → Bool → Bool → Option Page → ℕ → Option (Page × Pager)
unfolding initialize_page
new_page pgr set_as_root is_internal none pid = none
new_page pgr set_as_root is_internal (some pge) pid = elim (initialize_page pge pid is_internal) [
  | Result.failed ↦ none
  | Result.ok pge' ↦ some (
    pge',
    record pgr {
      root_page_id = if set_as_root then pid else pgr.root_page_id;
      page_count = (pgr.page_count + 1) % 2 ^ 32;
    },
  )
]

unfoldable pub update_root_page : Pager → ℕ → Pager
update_root_page pgr page_id = record pgr { root_page_id = page_id }

-- `buff[0]` has the dead flag.
abbrev pub is_dead : Bytes → Bool
is_dead buff = bit_is_set (get_or buff 0 0) dead

-- `disk` is the disk manager's answer to the write: `false` is an error. `none` is an error.
unfoldable pub write_page : Pager → ℕ → Bytes → Bool → Option Pager
unfolding FreeList.add
write_page pgr page_id buff disk =
    if not (length buff == page_size_bytes)
    then none
    else if not disk
    then none
    else if is_dead buff
    then some (record pgr {
      free_list = FreeList.add pgr.free_list page_id;
      page_count = if ltb 0 pgr.page_count then pgr.page_count - 1 else pgr.page_count;
    })
    else some pgr

-- `j.pageId*PAGE_SIZE_BYTES` in `executeJob`, a product of uint32s.
unfoldable pub page_offset : ℕ → ℕ
page_offset page_id = page_id * page_size_bytes % 2 ^ 32
