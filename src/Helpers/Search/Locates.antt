-- ===== src/Helpers/Search/Locates.antt =====
-- What `InsertBinarySearch` finds: the cell of the key, or a cell next to the key's place.
use baobab.Prelude.{
  ℕ, zero, suc, ◌+◌, ◌-◌, ◌/◌, ◌<◌, ◌≡◌, ◌≢◌, refl, sym, ap, subst, ◌∙◌, arith, inl, inr, List, [],
  ◌∷◌, some, length, get_elem?, take, drop, length-take, length-drop, All-append, take-append-drop,
  get_elem?_total,
}
use baobab.Prelude.Run.{Run, done}
use baobab.Prelude.Bytes.{
  Bytes, less, same, greater, compare_bytes, ◌≺◌, compare_bytes-same, compare_bytes-greater,
  Cmp-cases,
}
use native.Mathlib.Decide.{ℕ_discrete}
use baobab.Prelude.Sorted.{Below, Above, IsSorted, IsSorted-append_left, IsSorted-append_right}
use baobab.Helpers.Search.{insert_binary_search_on, insert_binary_search}
use baobab.Helpers.Search.Steps.{
  take-suc, cut_sorted, here_Locates, left_Below, right_Above, extend_right, extend_left, on_same,
  on_single, on_less, on_between, on_greater,
}
pub use baobab.Helpers.Search.Steps.{Locates}

-- What the search returns from `start`, when it finds the place `i` of the slice.
abbrev pub Finds : List Bytes → Bytes → ℕ → Run ℕ → Type 0
Finds l key start r = (i : ℕ) × (r ≡ done (start + i)) × Locates l key i

Finds-done :
    (l : List Bytes) (key : Bytes) (start i : ℕ) {r : Run ℕ}
    → r ≡ done (i + start)
    → Locates l key i
    → Finds l key start r
Finds-done l key start i e f = (i, e ∙ ap done (omega arith), f)

take_single : (l : List Bytes) → length l ≡ 1 → take (length l / 2) l ≡ []
take_single [] h = absurd (omega arith)
take_single (x ∷ []) h = refl
take_single (x ∷ y ∷ l) h = absurd (omega arith)

drop_single : (l : List Bytes) → length l ≡ 1 → drop (suc (length l / 2)) l ≡ []
drop_single [] h = absurd (omega arith)
drop_single (x ∷ []) h = refl
drop_single (x ∷ y ∷ l) h = absurd (omega arith)

-- The single cell of a slice has nothing on either side.
single_Locates :
    (l : List Bytes) (key : Bytes) (sorted : IsSorted l) {x : Bytes}
    → get_elem? l (length l / 2) ≡ some x
    → length l ≡ 1
    → Locates l key (length l / 2)
single_Locates l key sorted read one =
    here_Locates l key sorted (length l / 2) read (subst (Below key) (sym (take_single l one)) tt)
      (subst (Above key) (sym (drop_single l one)) tt)

-- The cell before the middle is below the key, so all before the middle is.
Below-between :
    (l : List Bytes) (key : Bytes) (sorted : IsSorted l) (m : ℕ) {y : Bytes}
    → get_elem? l m ≡ some y
    → y ≺ key
    → Below key (take (suc m) l)
Below-between l key sorted m {y} read h =
    subst (Below key) (sym (take-suc l m read))
      (All-append (λ z. z ≺ key) (take m l) (y ∷ []) (left_Below l key sorted m read h) (h, tt))

between_Locates :
    (l : List Bytes) (key : Bytes) (sorted : IsSorted l) (m : ℕ) {x y : Bytes}
    → get_elem? l m ≡ some x
    → 0 < m
    → get_elem? l (m - 1) ≡ some y
    → key ≺ x
    → y ≺ key
    → Locates l key m
between_Locates l key sorted m read pos before above below =
    here_Locates l key sorted m read
      (subst (λ j. Below key (take j l)) {x = suc (m - 1)} (omega arith)
        (Below-between l key sorted (m - 1) before below))
      (right_Above l key sorted m read above)

-- The recursive calls of the search, as what they would give for the whole slice.
module _ (fuel : ℕ) (l : List Bytes) (key : Bytes) (start : ℕ) (sorted : IsSorted l) {x : Bytes}
    (read : get_elem? l (length l / 2) ≡ some x) where
  right_Finds :
      compare_bytes x key ≡ less
      → length l ≢ 1
      → Finds
          (drop (length l / 2) l)
          key
          (length l / 2 + start)
          (insert_binary_search_on fuel (drop (length l / 2) l) key (length l / 2 + start))
      → Finds l key start (insert_binary_search_on (suc fuel) l key start)
  right_Finds c more (j, e, f) = (
    length l / 2 + j,
    on_less fuel l key start read c more ∙ e ∙ ap done (omega arith),
    extend_left l key sorted (length l / 2) read c j f,
  )

  left_Finds :
      compare_bytes x key ≡ greater
      → length l ≢ 1
      → 0 < length l / 2
      → Finds
          (take (length l / 2) l)
          key
          start
          (insert_binary_search_on fuel (take (length l / 2) l) key start)
      → Finds l key start (insert_binary_search_on (suc fuel) l key start)
  left_Finds c more pos (j, e, f) =
      let (y, before) = get_elem?_total l (length l / 2 - 1) (omega arith) in
      let key_lt = compare_bytes-greater x key c in
      elim (Cmp-cases (compare_bytes key y)) [
        | inl d ↦ (
          j,
          on_greater fuel l key start read c more before (λ q. cc) ∙ e,
          extend_right l key sorted (length l / 2) read key_lt j f,
        )
        | inr (inl d) ↦ (
          j,
          on_greater fuel l key start read c more before (λ q. cc) ∙ e,
          extend_right l key sorted (length l / 2) read key_lt j f,
        )
        | inr (inr d) ↦
            Finds-done l key start (length l / 2) (on_between fuel l key start read c more before d)
              (between_Locates l key sorted (length l / 2) read pos before key_lt
                (compare_bytes-greater key y d))
      ]

  same_Finds :
      compare_bytes x key ≡ same
      → Finds l key start (insert_binary_search_on (suc fuel) l key start)
  same_Finds c = Finds-done l key start (length l / 2) (on_same fuel l key start read c) (
      here_Locates l key sorted (length l / 2) read
        (subst (λ k. Below k (take (length l / 2) l)) (compare_bytes-same x key c)
          (cut_sorted l key sorted (length l / 2) read).left_below)
        (subst (λ k. Above k (drop (suc (length l / 2)) l)) (compare_bytes-same x key c)
          (cut_sorted l key sorted (length l / 2) read).right_above))

  single_Finds :
      compare_bytes x key ≢ same
      → length l ≡ 1
      → Finds l key start (insert_binary_search_on (suc fuel) l key start)
  single_Finds c one =
      Finds-done l key start (length l / 2) (on_single fuel l key start read c one)
        (single_Locates l key sorted read one)

search-Finds :
    (fuel : ℕ) (l : List Bytes) (key : Bytes) (start : ℕ)
    → length l < fuel
    → 0 < length l
    → IsSorted l
    → Finds l key start (insert_binary_search_on fuel l key start)
search-Finds zero l key start small some_key sorted = absurd (omega arith)
search-Finds (suc fuel) l key start small some_key sorted =
    let m = length l / 2 in
    let (x, read) = get_elem?_total l m (omega arith) in
    elim (ℕ_discrete (length l) 1) [
      | yes one ↦ elim (Cmp-cases (compare_bytes x key)) [
        | inl c ↦ single_Finds fuel l key start sorted read (λ e. cc) one
        | inr (inl c) ↦ same_Finds fuel l key start sorted read c
        | inr (inr c) ↦ single_Finds fuel l key start sorted read (λ e. cc) one
      ]
      | no more ↦ elim (Cmp-cases (compare_bytes x key)) [
        | inl c ↦ right_Finds fuel l key start sorted read c more (
            search-Finds fuel (drop m l) key (m + start) (omega (arith, length-drop m l))
              (omega (arith, length-drop m l))
              (IsSorted-append_right (take m l) (drop m l)
                (subst IsSorted (sym (take-append-drop m l)) sorted)))
        | inr (inl c) ↦ same_Finds fuel l key start sorted read c
        | inr (inr c) ↦ left_Finds fuel l key start sorted read c more (omega arith) (
            search-Finds fuel (take m l) key start (omega (arith, length-take m l))
              (omega (arith, length-take m l))
              (IsSorted-append_left (take m l) (drop m l)
                (subst IsSorted (sym (take-append-drop m l)) sorted)))
      ]
    ]

-- On a sorted slice that is not empty the search returns, without a panic and within its fuel, an
-- index of the slice: all keys before it are smaller than the searched key, all after it greater.
pub insert_binary_search-Locates :
    (l : List Bytes) (key : Bytes) (start : ℕ)
    → 0 < length l
    → IsSorted l
    → Finds l key start (insert_binary_search l key start)
unfolding insert_binary_search
insert_binary_search-Locates l key start some_key sorted =
    search-Finds (suc (length l)) l key start (omega arith) some_key sorted
