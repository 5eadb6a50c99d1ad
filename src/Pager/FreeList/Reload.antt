-- ===== src/Pager/FreeList/Reload.antt =====
-- What is left of the free list after a flush and a start.
use baobab.Prelude.{
  ℕ, zero, suc, ◌-◌, ◌*◌, ◌^◌, ◌≤◌, ◌<◌, ◌≡◌, refl, ap, ◌∙◌, arith, ◌⊎◌, inl, inr, Bool, true,
  false, List, [], ◌∷◌, ◌++◌, some, length, take, drop, replicate, All, leb, if◌then◌else◌,
  append_assoc, append-nil, length-append, length-replicate, length-take, take_all, drop-append,
}
use baobab.Prelude.Bytes.{Bytes, le_u32, u32_at, u32_at-le_u32, length-le_u32}
use baobab.Prelude.Run.{done, panics, slice_from}
use native.Mathlib.Decide.{dec_lt}
use baobab.Pager.FreeList.{FreeList}
use baobab.Pager.FreeList.File.{
  free_list_page_size, items_per_page, pages_for, words, page_items, page_bytes, flush_pages,
  flush_free_list, read_items, read_pages, load_free_list,
}

-- An id that fits into a word and is not 0.
abbrev pub IsId : ℕ → Type 0
IsId x = (0 < x) × (x < 2 ^ 32)

length-words : (xs : List ℕ) → length (words xs) ≡ 4 * length xs
unfolding words
length-words [] = omega arith
length-words (x ∷ xs) =
    omega (arith, length-append (le_u32 x) (words xs), length-le_u32 x, length-words xs)

zeros_cons : (k : ℕ) → replicate {A = ℕ} (4 * suc k) 0 ≡ 0 ∷ 0 ∷ 0 ∷ 0 ∷ replicate (4 * k) 0
zeros_cons k =
    ap (λ n. replicate {A = ℕ} n 0) {x = 4 * suc k} {y = suc (suc (suc (suc (4 * k))))}
      (omega arith)

-- The content of a page with `k` cells.
abbrev filled : ℕ → List ℕ → Bytes
filled k xs = words xs ++ replicate (4 * (k - length xs)) 0

no_id : (k : ℕ) → u32_at (filled (suc k) []) ≡ some 0
unfolding words u32_at
no_id k =
    ap u32_at (
      ap (λ n. replicate {A = ℕ} (4 * n) 0) {x = suc k - 0} {y = suc k} (omega arith)
      ∙ zeros_cons k)

filled-cons : (k x : ℕ) (xs : List ℕ) → filled (suc k) (x ∷ xs) ≡ le_u32 x ++ filled k xs
unfolding words
filled-cons k x xs =
    ap (λ n. (le_u32 x ++ words xs) ++ replicate {A = ℕ} (4 * n) 0) {x = suc k - suc (length xs)}
      {y = k - length xs} (omega arith)
    ∙ append_assoc (le_u32 x) (words xs) (replicate (4 * (k - length xs)) 0)

next_id : (k x : ℕ) (xs : List ℕ) → x < 2 ^ 32 → u32_at (filled (suc k) (x ∷ xs)) ≡ some x
next_id k x xs small = ap u32_at (filled-cons k x xs) ∙ u32_at-le_u32 x (filled k xs) small

other_ids : (k x : ℕ) (xs : List ℕ) → drop 4 (filled (suc k) (x ∷ xs)) ≡ filled k xs
other_ids k x xs =
    ap (drop 4) (filled-cons k x xs) ∙ drop-append (le_u32 x) (filled k xs) 4 (length-le_u32 x)

-- Ids and zeros behind them read back as the ids; the zeros end them unless the page is full.
read_items-filled :
    (k : ℕ) (xs : List ℕ)
    → All IsId xs
    → length xs ≤ k
    → (b : Bool) × (read_items k (filled k xs) ≡ done (xs, b))
unfolding read_items
read_items-filled zero [] ids h = (false, refl)
read_items-filled zero (x ∷ xs) ids h = absurd (omega arith)
read_items-filled (suc k) [] ids h = (true, ground (arith, no_id k))
read_items-filled (suc k) (x ∷ xs) ids h =
    let (b, r) = read_items-filled k xs ids.1 (omega arith) in
    (b, ground (arith, next_id k x xs ids.0.1, other_ids k x xs, r, ids.0.0))

length-filled : (k : ℕ) (xs : List ℕ) → length xs ≤ k → length (filled k xs) ≡ 4 * k
length-filled k xs h = omega (
  arith,
  length-words xs,
  length-append (words xs) (replicate (4 * (k - length xs)) 0),
  length-replicate {A = ℕ} (4 * (k - length xs)) 0,
)

read_pages-full :
    (file : Bytes) (ids : List ℕ) (b : Bool)
    → length file ≡ free_list_page_size
    → read_items items_per_page file ≡ done (ids, b)
    → read_pages 1 file ≡ done ids
unfolding read_pages
read_pages-full file ids true size r =
    ground (arith, size, take_all free_list_page_size file (omega (arith, size)), r)
read_pages-full file ids false size r =
    ground (arith, size, take_all free_list_page_size file (omega (arith, size)), r, append-nil ids)

-- The first page's ids, for pages of `k` ids.
first_ids :
    (k c : ℕ) (xs : List ℕ)
    → c ≡ length xs
    → (if leb k c
        then (slice_from xs 0 λ rest. if leb k (length rest) then done (take k rest) else panics)
        else slice_from xs 0 (λ rest. done rest))
      ≡ done (take k xs)
first_ids k c xs h = elim (full_or_not (length xs)) [
  | inl full ↦ ground (arith, h, full)
  | inr short ↦ ground (arith, h, short, take_all k xs (omega (arith, short)))
]
  where
    full_or_not : (n : ℕ) → (k ≤ n) ⊎ (n < k)
    full_or_not n = ground arith

page_items-first :
    (fl : FreeList)
    → fl.count ≡ length fl.free_pages
    → page_items fl 0 ≡ done (take items_per_page fl.free_pages)
unfolding page_items
page_items-first fl h = first_ids items_per_page fl.count fl.free_pages h

page_bytes-filled :
    (xs : List ℕ) → length xs ≤ items_per_page → page_bytes xs ≡ done (filled items_per_page xs)
unfolding page_bytes
page_bytes-filled xs h = ground (arith, h)

All-take : (n : ℕ) (xs : List ℕ) → All IsId xs → All IsId (take n xs)
All-take zero xs h = tt
All-take (suc n) [] h = tt
All-take (suc n) (x ∷ xs) h = (h.0, All-take n xs h.1)

flush_pages-one :
    (fl : FreeList)
    → fl.count ≡ length fl.free_pages
    → flush_pages 1 0 fl ≡ done (filled items_per_page (take items_per_page fl.free_pages))
unfolding flush_pages
flush_pages-one fl h =
    rw
      (
        page_items-first fl h,
        page_bytes-filled (take items_per_page fl.free_pages)
            (omega (arith, length-take items_per_page fl.free_pages)),
      )
      (ap done (append-nil _))

flush_free_list-pages :
    (fl : FreeList) (file bytes : Bytes)
    → fl.is_dirty ≡ true
    → 0 < fl.count
    → flush_pages (pages_for fl.count) 0 fl ≡ done bytes
    → flush_free_list fl file ≡ done (bytes, record fl { is_dirty = false })
unfolding flush_free_list
flush_free_list-pages fl file bytes changed some_id h = ground (arith, changed, h)

-- An empty list is flushed to an empty file.
flush_free_list-empty :
    (fl : FreeList) (file : Bytes)
    → fl.is_dirty ≡ true
    → fl.count ≡ 0
    → flush_free_list fl file ≡ done ([], record fl { is_dirty = false })
unfolding flush_free_list
flush_free_list-empty fl file changed none_left = ground (arith, changed, none_left)

load_free_list-empty :
    (fresh : FreeList) (ids : List ℕ)
    → fresh.free_pages ≡ []
    → length ids ≡ 0
    → load_free_list fresh []
      ≡ done (record fresh {
        free_pages = take items_per_page ids;
        count = length (take items_per_page ids);
      })
unfolding load_free_list read_pages
load_free_list-empty fresh [] empty no_ids = rw empty refl
load_free_list-empty fresh (x ∷ xs) empty no_ids = absurd (omega arith)

-- The free list has an id to flush.
flush_some :
    (fl fresh : FreeList) (file : Bytes)
    → fl.count ≡ length fl.free_pages
    → All IsId fl.free_pages
    → fl.is_dirty ≡ true
    → 0 < fl.count
    → fl.count ≤ free_list_page_size
    → fresh.free_pages ≡ []
    → (bytes : Bytes) × (flush_free_list fl file ≡ done (bytes, record fl { is_dirty = false }))
      × (load_free_list fresh bytes
          ≡ done (record fresh {
            free_pages = take items_per_page fl.free_pages;
            count = length (take items_per_page fl.free_pages);
          }))
unfolding load_free_list
flush_some fl fresh file counted ids changed some_id few empty =
    let kept = take items_per_page fl.free_pages in
    let fits : length kept ≤ items_per_page =
      omega (arith, length-take items_per_page fl.free_pages) in
    let bytes = filled items_per_page kept in
    let size : length bytes ≡ free_list_page_size = length-filled items_per_page kept fits in
    let (b, r) =
      read_items-filled items_per_page kept (All-take items_per_page fl.free_pages ids) fits in
    let one : pages_for fl.count ≡ 1 = omega arith in
    let one' : pages_for (length bytes) ≡ 1 = omega (arith, size) in
    (
      bytes,
      flush_free_list-pages fl file bytes changed some_id (rw one (flush_pages-one fl counted)),
      rw (one', read_pages-full bytes kept b size r, empty) refl,
    )

-- When a changed free list of at most 4096 ids, which it counts and which are not 0 and fit into a word, is
-- flushed and loaded into an empty list at the next start, neither panics, and the loaded list has the first 1024 ids in their order: the whole list when it has no more, while
-- any further ids are lost.
pub load_free_list-flush_free_list :
    (fl fresh : FreeList) (file : Bytes)
    → fl.count ≡ length fl.free_pages
    → All IsId fl.free_pages
    → fl.is_dirty ≡ true
    → fl.count ≤ free_list_page_size
    → fresh.free_pages ≡ []
    → (bytes : Bytes) × (flush_free_list fl file ≡ done (bytes, record fl { is_dirty = false }))
      × (load_free_list fresh bytes
          ≡ done (record fresh {
            free_pages = take items_per_page fl.free_pages;
            count = length (take items_per_page fl.free_pages);
          }))
load_free_list-flush_free_list fl fresh file counted ids changed few empty =
    elim (dec_lt 0 fl.count) [
      | yes some_id ↦ flush_some fl fresh file counted ids changed some_id few empty
      | no no_id ↦ (
        [],
        flush_free_list-empty fl file changed (omega arith),
        load_free_list-empty fresh fl.free_pages empty (omega (arith, counted)),
      )
    ]
