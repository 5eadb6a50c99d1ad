-- ===== src/Pager/FreeList/File.antt =====
-- pkg/pager/freelist.go: the file of dead page ids, in pages of 4096 bytes of which each holds up to 1024
-- ids. The file is the list of its bytes.
use baobab.Prelude.{
  ℕ, zero, suc, ◌+◌, ◌-◌, ◌*◌, ◌/◌, leb, ltb, ◌==◌, not, if◌then◌else◌, Bool, true, false, none,
  some, List, [], ◌∷◌, ◌++◌, length, take, drop, replicate,
}
use baobab.Prelude.Bytes.{Bytes, le_u32, u32_at}
use baobab.Prelude.Run.{Run, done, panics, ◌>>=◌, slice_from}
use baobab.Pager.FreeList.{FreeList}

abbrev pub free_list_page_size : ℕ
free_list_page_size = 4096

abbrev pub items_per_page : ℕ
items_per_page = 1024

-- The integer that `math.Ceil` of the quotient stands for.
abbrev pub pages_for : ℕ → ℕ
pages_for n = (n + (free_list_page_size - 1)) / free_list_page_size

unfoldable pub words : List ℕ → Bytes
words [] = []
words (x ∷ xs) = le_u32 x ++ words xs

-- The ids of page `i`; each slice panics out of range.
unfoldable pub page_items : FreeList → ℕ → Run (List ℕ)
page_items fl i =
    if leb ((i + 1) * items_per_page) fl.count
    then (slice_from fl.free_pages (i * items_per_page) λ rest.
        if leb items_per_page (length rest) then done (take items_per_page rest) else panics)
    else slice_from fl.free_pages (i * items_per_page) (λ rest. done rest)

-- A page: the ids, and zeros behind them. More ids than a page holds panic.
unfoldable pub page_bytes : List ℕ → Run Bytes
page_bytes item_list =
    if leb (length item_list) items_per_page
    then done (words item_list ++ replicate (4 * (items_per_page - length item_list)) 0)
    else panics

-- `n` pages from page `i` on. Together they are the whole file, which is cut off behind them.
unfoldable pub flush_pages : ℕ → ℕ → FreeList → Run Bytes
flush_pages zero i fl = done []
flush_pages (suc n) i fl = page_items fl i >>= λ item_list.
    page_bytes item_list >>= λ page. flush_pages n (i + 1) fl >>= λ rest. done (page ++ rest)

-- The file's content afterwards and the list, now clean.
unfoldable pub flush_free_list : FreeList → Bytes → Run (Bytes × FreeList)
flush_free_list fl file =
    if not fl.is_dirty
    then done (file, fl)
    else if leb fl.count 0
    then done ([], record fl { is_dirty = false })
    else (flush_pages (pages_for fl.count) 0 fl >>= λ bytes.
        done (bytes, record fl { is_dirty = false }))

-- Up to `k` ids of a page, and whether the id 0 ended them.
unfoldable pub read_items : ℕ → Bytes → Run (List ℕ × Bool)
read_items zero bytes = done ([], false)
read_items (suc k) bytes =
    let rest = read_items k (drop 4 bytes) in
    elim (u32_at bytes) [
      | none ↦ panics
      | some item ↦ if item == 0 then done ([], true) else (rest >>= λ r. done (item ∷ r.0, r.1))
    ]

-- Up to `n` pages. A page that the file does not hold in full is an error of the read, which panics.
unfoldable pub read_pages : ℕ → Bytes → Run (List ℕ)
read_pages zero file = done []
read_pages (suc n) file =
    let rest = read_pages n (drop free_list_page_size file) in
    if ltb (length file) free_list_page_size
    then panics
    else (read_items items_per_page (take free_list_page_size file) >>= λ r.
        if r.1 then done r.0 else (rest >>= λ more. done (r.0 ++ more)))

unfoldable pub load_free_list : FreeList → Bytes → Run FreeList
load_free_list fl file = read_pages (pages_for (length file)) file >>= λ ids.
    done (record fl { free_pages = fl.free_pages ++ ids; count = length (fl.free_pages ++ ids) })
