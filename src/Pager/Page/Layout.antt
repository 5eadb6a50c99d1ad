-- ===== src/Pager/Page/Layout.antt =====
-- The header fields do not overlap: each update is read back and leaves the other fields alone.
use baobab.Prelude.{
  ℕ, ◌+◌, ◌≤◌, ◌≡◌, ◌≢◌, refl, sym, ap, subst, ◌∙◌, arith, ◌⊎◌, [], ◌∷◌, length, take, length-take,
}
use baobab.Prelude.Bytes.{Bytes, le_u32, length-le_u32}
use baobab.Prelude.Slice.{
  write_at, read_at, length-write_at, read_at-write_at, read_at-write_at_apart,
}
use baobab.Helpers.Flags.{set_flag, unset_flag}
use baobab.Pager.Page.{
  Page, page_size_bytes, dead, dirty, flags_of, mark_as_dead, mark_dirty, mark_clean, set_lsn,
  update_upper_offset, update_lower_offset, update_item_count, update_free_space,
  update_right_sibling, update_left_sibling,
}

-- The fields of the 51-byte header that the code names.
pub data Field : Type 0 where
  flags page_id_field lsn_field item_count free_space upper_offset lower_offset : Field
  right_ptr right_sibling left_sibling : Field

abbrev pub offset_of : Field → ℕ
offset_of flags = 0
offset_of page_id_field = 1
offset_of lsn_field = 5
offset_of item_count = 17
offset_of free_space = 21
offset_of upper_offset = 25
offset_of lower_offset = 29
offset_of right_ptr = 39
offset_of right_sibling = 43
offset_of left_sibling = 47

abbrev pub width_of : Field → ℕ
width_of flags = 1
width_of lsn_field = 12
width_of _ = 4

pub read_field : Page → Field → Bytes
read_field p f = read_at p.pge_data (offset_of f) (width_of f)

-- The methods of `Page` that write one field.
pub data Update : Type 0 where
  marks_dead marks_dirty marks_clean : Update
  sets_lsn : Bytes → Update
  sets_item_count sets_free_space sets_upper sets_lower sets_right sets_left : ℕ → Update

pub apply : Update → Page → Page
apply marks_dead p = mark_as_dead p
apply marks_dirty p = mark_dirty p
apply marks_clean p = mark_clean p
apply (sets_lsn lsn) p = set_lsn p lsn
apply (sets_item_count v) p = update_item_count p v
apply (sets_free_space v) p = update_free_space p v
apply (sets_upper v) p = update_upper_offset p v
apply (sets_lower v) p = update_lower_offset p v
apply (sets_right v) p = update_right_sibling p v
apply (sets_left v) p = update_left_sibling p v

abbrev pub field_of : Update → Field
field_of marks_dead = flags
field_of marks_dirty = flags
field_of marks_clean = flags
field_of (sets_lsn lsn) = lsn_field
field_of (sets_item_count v) = item_count
field_of (sets_free_space v) = free_space
field_of (sets_upper v) = upper_offset
field_of (sets_lower v) = lower_offset
field_of (sets_right v) = right_sibling
field_of (sets_left v) = left_sibling

-- What the update is meant to put there.
abbrev pub content_of : Update → Page → Bytes
content_of marks_dead p = set_flag (flags_of p) (dead ∷ dirty ∷ []) ∷ []
content_of marks_dirty p = set_flag (flags_of p) (dirty ∷ []) ∷ []
content_of marks_clean p = unset_flag (flags_of p) (dirty ∷ []) ∷ []
content_of (sets_lsn lsn) p = take 12 lsn
content_of (sets_item_count v) p = le_u32 v
content_of (sets_free_space v) p = le_u32 v
content_of (sets_upper v) p = le_u32 v
content_of (sets_lower v) p = le_u32 v
content_of (sets_right v) p = le_u32 v
content_of (sets_left v) p = le_u32 v

-- An LSN of twelve bytes or more.
abbrev pub HasContent : Update → Type 0
HasContent (sets_lsn lsn) = 12 ≤ length lsn
HasContent _ = Unit

apply-write_at :
    (u : Update) (p : Page)
    → (apply u p).pge_data ≡ write_at p.pge_data (offset_of (field_of u)) (content_of u p)
unfolding apply mark_as_dead mark_dirty mark_clean set_lsn update_item_count update_free_space
    update_upper_offset update_lower_offset update_right_sibling update_left_sibling
apply-write_at marks_dead p = refl
apply-write_at _ p = refl

apply-page_id : (u : Update) (p : Page) → (apply u p).page_id ≡ p.page_id
unfolding apply mark_as_dead mark_dirty mark_clean set_lsn update_item_count update_free_space
    update_upper_offset update_lower_offset update_right_sibling update_left_sibling
apply-page_id marks_dead p = refl
apply-page_id _ p = refl

length-content_of :
    (u : Update) (p : Page) → HasContent u → length (content_of u p) ≡ width_of (field_of u)
length-content_of marks_dead p h = refl
length-content_of marks_dirty p h = refl
length-content_of marks_clean p h = refl
length-content_of (sets_lsn lsn) p h = omega (arith, length-take 12 lsn)
length-content_of (sets_item_count v) p h = length-le_u32 v
length-content_of (sets_free_space v) p h = length-le_u32 v
length-content_of (sets_upper v) p h = length-le_u32 v
length-content_of (sets_lower v) p h = length-le_u32 v
length-content_of (sets_right v) p h = length-le_u32 v
length-content_of (sets_left v) p h = length-le_u32 v

-- Two fields are the same one or lie apart.
fields_apart :
    (f g : Field)
    → f ≢ g
    → (offset_of f + width_of f ≤ offset_of g) ⊎ (offset_of g + width_of g ≤ offset_of f)
fields_apart f g h = ground arith

field_fits : (f : Field) → offset_of f + width_of f ≤ page_size_bytes
field_fits f = ground arith

-- On a page of full size each update, that of the LSN with twelve bytes or more, writes its field and no
-- other: the field reads back as what
-- the update is meant to put there, every other field of the header reads as before, and the page
-- keeps its size and id.
pub apply-frame :
    (u : Update) (p : Page)
    → length p.pge_data ≡ page_size_bytes
    → HasContent u
    → (read_field (apply u p) (field_of u) ≡ content_of u p)
      × ((f : Field) → f ≢ field_of u → read_field (apply u p) f ≡ read_field p f)
      × (length (apply u p).pge_data ≡ page_size_bytes)
      × ((apply u p).page_id ≡ p.page_id)
unfolding read_field
apply-frame u p full has =
    let size = length-content_of u p has in
    let fits : offset_of (field_of u) + length (content_of u p) ≤ length p.pge_data =
      omega (arith, field_fits (field_of u)) in
    let written = apply-write_at u p in
    (
      ap (λ d. read_at d (offset_of (field_of u)) (width_of (field_of u))) written
          ∙ subst
              (λ w.
                read_at (write_at p.pge_data (offset_of (field_of u)) (content_of u p))
                  (offset_of (field_of u)) w
                ≡ content_of u p)
              size (read_at-write_at p.pge_data (offset_of (field_of u)) (content_of u p) fits),
      λ f other.
          ap (λ d. read_at d (offset_of f) (width_of f)) written
          ∙ read_at-write_at_apart p.pge_data (offset_of (field_of u)) (content_of u p) fits
              (offset_of f) (width_of f)
              (subst
                (λ w.
                  (offset_of f + width_of f ≤ offset_of (field_of u))
                  ⊎ (offset_of (field_of u) + w ≤ offset_of f))
                (sym size) (fields_apart f (field_of u) other)),
      ap (λ d. length d) written
          ∙ length-write_at p.pge_data (offset_of (field_of u)) (content_of u p) fits
          ∙ full,
      apply-page_id u p,
    )
