-- ===== src/Tests/Pager.antt =====
-- pkg/pager.
use baobab.Prelude.{
  ℕ, ◌≤◌, ◌+◌, ◌^◌, ◌≡◌, ◌≢◌, refl, arith, ◌⊎◌, inl, true, false, some, List, [], ◌∷◌, length,
  replicate, length-replicate,
}
use baobab.Prelude.Bytes.{Bytes}
use baobab.Prelude.Run.{done}
use baobab.Helpers.Flags.{bit_is_set}
use baobab.Pager.Page.{Page, page_size_bytes}
use baobab.Pager.Page.Layout.{Field, sets_lsn, read_field, field_of, content_of, apply, apply-frame}
use baobab.Pager.Ids.{Pager, new_page_id, write_page, page_offset}
use baobab.Pager.Ids.Fresh.{
  times, IdsSound, Issues, new_page_id-Issues, write_page-IdsSound, page_offset_collides,
  page_offset_apart,
}
use baobab.Pager.FreeList.{FreeList}
use baobab.Pager.FreeList.File.{flush_free_list, load_free_list}
use baobab.Pager.FreeList.Reload.{load_free_list-flush_free_list}
use baobab.Pager.Metadata.{flush_metadata, init_from_metadata, init_from_metadata-flush_metadata}

abbrev pager : Pager
pager = record {
  free_list = record { count = 1; free_pages = 2 ∷ []; is_dirty = false };
  root_page_id = 1;
  page_count = 2;
  max_page_id = 3;
}

abbrev in_use : List ℕ
in_use = 1 ∷ 3 ∷ []

pager-IdsSound : IdsSound pager in_use
pager-IdsSound = record {
  counted = refl;
  once = λ a. ground arith;
  issued = λ a h. ground arith;
  small = omega arith;
}

abbrev zeros : Bytes
zeros = replicate page_size_bytes 0

abbrev page : Page
page = record { pge_data = zeros; page_id = 4 }

abbrev new_lsn : Bytes
new_lsn = 1 ∷ 2 ∷ 3 ∷ 4 ∷ 5 ∷ 6 ∷ 7 ∷ 8 ∷ 9 ∷ 10 ∷ 11 ∷ 12 ∷ []

apply-frame_example :
    (read_field (apply (sets_lsn new_lsn) page) (field_of (sets_lsn new_lsn))
      ≡ content_of (sets_lsn new_lsn) page)
    × ((f : Field)
        → f ≢ field_of (sets_lsn new_lsn)
        → read_field (apply (sets_lsn new_lsn) page) f ≡ read_field page f)
    × (length (apply (sets_lsn new_lsn) page).pge_data ≡ page_size_bytes)
    × ((apply (sets_lsn new_lsn) page).page_id ≡ page.page_id)
apply-frame_example =
    apply-frame (sets_lsn new_lsn) page (length-replicate {A = ℕ} page_size_bytes 0) (omega arith)

new_page_id-Issues_example :
    (id : ℕ) × (pgr' : Pager) × (new_page_id pager ≡ done (id, pgr')) × Issues in_use id pgr'
new_page_id-Issues_example = new_page_id-Issues pager in_use pager-IdsSound (inl (omega arith))

-- A page whose first byte has the dead flag.
abbrev dead_page : Bytes
dead_page = 16 ∷ replicate 8191 0

write_page-IdsSound_example :
    (pgr' : Pager) × (write_page pager 3 dead_page true ≡ some pgr')
    × IdsSound pgr' (1 ∷ [])
    × (times 3 pgr'.free_list.free_pages ≡ 1)
unfolding bit_is_set
write_page-IdsSound_example =
    write_page-IdsSound pager in_use (1 ∷ []) 3 dead_page pager-IdsSound
      (omega (arith, length-replicate {A = ℕ} 8191 0)) refl (λ a. omega arith)

page_offset_collides_example : page_offset (5 + 2 ^ 19) ≡ page_offset 5
page_offset_collides_example = page_offset_collides 5

page_offset_apart_example :
    (page_offset 7 + page_size_bytes ≤ page_offset 9)
    ⊎ (page_offset 9 + page_size_bytes ≤ page_offset 7)
page_offset_apart_example = page_offset_apart 7 9 (omega arith) (omega arith) (omega arith)

init_from_metadata-flush_metadata_example :
    (flushed : Bytes) × (flush_metadata pager zeros ≡ some flushed)
    × (length flushed ≡ page_size_bytes)
    × (init_from_metadata pager flushed
        ≡ done (record pager { root_page_id = 1; page_count = 2; max_page_id = 3 }))
init_from_metadata-flush_metadata_example =
    init_from_metadata-flush_metadata pager pager zeros (length-replicate {A = ℕ} page_size_bytes 0)
      (omega arith) (omega arith) (omega arith)

abbrev dirty_list : FreeList
dirty_list = record { count = 2; free_pages = 7 ∷ 5 ∷ []; is_dirty = true }

abbrev empty_list : FreeList
empty_list = record { count = 0; free_pages = []; is_dirty = false }

load_free_list-flush_free_list_example :
    (bytes : Bytes) × (flush_free_list dirty_list []
      ≡ done (bytes, record dirty_list { is_dirty = false }))
    × (load_free_list empty_list bytes
        ≡ done (record empty_list { free_pages = 7 ∷ 5 ∷ []; count = 2 }))
load_free_list-flush_free_list_example =
    load_free_list-flush_free_list dirty_list empty_list [] refl
      ((omega arith, omega arith), ((omega arith, omega arith), tt)) refl (omega arith) refl
