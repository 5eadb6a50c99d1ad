-- ===== src/Helpers/Slices.antt =====
-- pkg/helpers/helpers.go: `InsertToList` and `DeleteSliceKey`.
pub mod Cut
use baobab.Prelude.{
  ℕ, zero, suc, ◌+◌, ◌-◌, ◌/◌, leb, ltb, if◌then◌else◌, List, [], ◌∷◌, ◌++◌, Option, none, some,
}
use baobab.Prelude.{length, take, drop}

module _ {ℓ} {A : Type ℓ} where
  -- For an index that is not negative; past the last cell the value is appended.
  unfoldable pub insert_to_list : List A → ℕ → A → List A
  insert_to_list list idx val =
      if leb (length list) idx then list ++ (val ∷ []) else take idx list ++ (val ∷ drop idx list)

  -- `append(l[:idx], l[idx+1:]...)`, with the two guards of `DeleteSliceKey`; `none` is its error.
  unfoldable pub delete_slice_key : List A → ℕ → Option (List A)
  delete_slice_key l idx =
      if leb (length l) 0
      then none
      else if leb (length l) idx
      then none
      else some (take idx l ++ drop (suc idx) l)
