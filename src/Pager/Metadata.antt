-- ===== src/Pager/Metadata.antt =====
-- pkg/pager/pager.go: `FlushMetadata` and `InitFromMetadata`. The write to page 0 and the read of it
-- are the disk manager's; here they hand over the buffer.
use baobab.Prelude.{
  ℕ, ◌+◌, ◌^◌, ◌≤◌, ◌<◌, ◌≡◌, sym, ap, subst, ◌∙◌, arith, ◌⊎◌, ◌==◌, not, if◌then◌else◌, Option,
  none, some, length,
}
use baobab.Prelude.Bytes.{Bytes, le_u32, u32_at, length-le_u32}
use baobab.Prelude.Run.{Run, done, panics}
use baobab.Prelude.Slice.{
  write_at, read_at, length-write_at, read_at-write_at, read_at-write_at_apart,
}
use baobab.Pager.Page.{page_size_bytes}
use baobab.Pager.Ids.{Pager}

-- The buffer that is handed to the disk manager; `none` is the error on the buffer's size.
pub flush_metadata : Pager → Bytes → Option Bytes
flush_metadata pgr buff =
    if not (length buff == page_size_bytes)
    then none
    else some (
        write_at (write_at (write_at buff 0 (le_u32 pgr.root_page_id)) 12 (le_u32 pgr.page_count))
          16 (le_u32 pgr.max_page_id))

abbrev field_u32 {ℓ} : {B : Type ℓ} → Bytes → ℕ → (ℕ → Run B) → Run B
field_u32 buf off k = elim (u32_at (read_at buf off 4)) [ none ↦ panics | some v ↦ k v ]

-- `InitFromMetadata`, with the content that was read from page 0.
pub init_from_metadata : Pager → Bytes → Run Pager
init_from_metadata pgr pge_data = field_u32 pge_data 0 λ root. field_u32 pge_data 12 λ count.
    field_u32 pge_data 16
      λ max_id. done (record pgr { root_page_id = root; page_count = count; max_page_id = max_id })

module _ (buf : Bytes) (off v : ℕ) (fits : off + 4 ≤ length buf) where
  fits' : off + length (le_u32 v) ≤ length buf
  fits' = omega (arith, length-le_u32 v)

  size_kept : length (write_at buf off (le_u32 v)) ≡ length buf
  size_kept = length-write_at buf off (le_u32 v) fits'

  read_written : v < 2 ^ 32 → u32_at (read_at (write_at buf off (le_u32 v)) off 4) ≡ some v
  read_written small =
      ap u32_at (
        subst (λ w. read_at (write_at buf off (le_u32 v)) off w ≡ le_u32 v) (length-le_u32 v)
          (read_at-write_at buf off (le_u32 v) fits'))
      ∙ word
    where
      word : u32_at (le_u32 v) ≡ some v
      word = unfold u32_at le_u32 in ap some (omega arith)

  read_other :
      (off' : ℕ)
      → (off' + 4 ≤ off) ⊎ (off + 4 ≤ off')
      → u32_at (read_at (write_at buf off (le_u32 v)) off' 4) ≡ u32_at (read_at buf off' 4)
  read_other off' apart = ap u32_at (
      read_at-write_at_apart buf off (le_u32 v) fits' off' 4
        (subst (λ w. (off' + 4 ≤ off) ⊎ (off + w ≤ off')) (sym (length-le_u32 v)) apart))

loads_fields :
    (fresh : Pager) (buf : Bytes) {r c m : ℕ}
    → u32_at (read_at buf 0 4) ≡ some r
    → u32_at (read_at buf 12 4) ≡ some c
    → u32_at (read_at buf 16 4) ≡ some m
    → init_from_metadata fresh buf
      ≡ done (record fresh { root_page_id = r; page_count = c; max_page_id = m })
unfolding init_from_metadata
loads_fields fresh buf hr hc hm = ground arith

-- The root page id, the page count and the largest page id survive a flush of the metadata page
-- and a later start from it, whatever else the buffer held and whatever the new pager started with.
pub init_from_metadata-flush_metadata :
    (pgr fresh : Pager) (buff : Bytes)
    → length buff ≡ page_size_bytes
    → pgr.root_page_id < 2 ^ 32
    → pgr.page_count < 2 ^ 32
    → pgr.max_page_id < 2 ^ 32
    → (flushed : Bytes) × (flush_metadata pgr buff ≡ some flushed)
      × (length flushed ≡ page_size_bytes)
      × (init_from_metadata fresh flushed
          ≡ done (record fresh {
            root_page_id = pgr.root_page_id;
            page_count = pgr.page_count;
            max_page_id = pgr.max_page_id;
          }))
unfolding flush_metadata
init_from_metadata-flush_metadata pgr fresh buff full hr hc hm =
    let b₁ = write_at buff 0 (le_u32 pgr.root_page_id) in
    let b₂ = write_at b₁ 12 (le_u32 pgr.page_count) in
    let b₃ = write_at b₂ 16 (le_u32 pgr.max_page_id) in
    let s₁ : length b₁ ≡ page_size_bytes =
      size_kept buff 0 pgr.root_page_id (omega (arith, full)) ∙ full in
    let s₂ : length b₂ ≡ page_size_bytes =
      size_kept b₁ 12 pgr.page_count (omega (arith, s₁)) ∙ s₁ in
    let s₃ : length b₃ ≡ page_size_bytes =
      size_kept b₂ 16 pgr.max_page_id (omega (arith, s₂)) ∙ s₂ in
    let root : u32_at (read_at b₃ 0 4) ≡ some pgr.root_page_id =
      read_other b₂ 16 pgr.max_page_id (omega (arith, s₂)) 0 (omega arith)
      ∙ read_other b₁ 12 pgr.page_count (omega (arith, s₁)) 0 (omega arith)
      ∙ read_written buff 0 pgr.root_page_id (omega (arith, full)) hr in
    let count : u32_at (read_at b₃ 12 4) ≡ some pgr.page_count =
      read_other b₂ 16 pgr.max_page_id (omega (arith, s₂)) 12 (omega arith)
      ∙ read_written b₁ 12 pgr.page_count (omega (arith, s₁)) hc in
    let max_id : u32_at (read_at b₃ 16 4) ≡ some pgr.max_page_id =
      read_written b₂ 16 pgr.max_page_id (omega (arith, s₂)) hm in
    (b₃, ground (arith, full), s₃, loads_fields fresh b₃ root count max_id)
