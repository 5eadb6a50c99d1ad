-- ===== src/Helpers/Search/Steps.antt =====
-- One step of `InsertBinarySearch`: the places it finds, and the outcomes of one call by what it reads.
use baobab.Prelude.{
  ℕ, zero, suc, ◌+◌, ◌-◌, ◌/◌, ◌<◌, ◌≡◌, ◌≢◌, sym, ap, subst, ◌∙◌, arith, List, [], ◌∷◌, ◌++◌,
  append_assoc, some, length, get_elem?, take, drop, length-take, length-append, All-append,
  take-append-drop, drop-get_elem?,
}
use baobab.Prelude.Run.{done}
use baobab.Prelude.Bytes.{
  Bytes, less, same, greater, compare_bytes, ◌≺◌, compare_bytes-greater, ≺_flip,
}
use baobab.Prelude.Sorted.{
  Below, Above, IsSorted, CutsAt, IsSorted→CutsAt, Below-trans, Above-trans,
}
use baobab.Helpers.Search.{insert_binary_search_on}

-- The cell `i` of the slice has only smaller keys than `key` before it and only greater ones after.
pub record Locates (l : List Bytes) (key : Bytes) (i : ℕ) : Type 0 where
  pub pre : List Bytes
  pub at_i : Bytes
  pub post : List Bytes
  pub cut : l ≡ pre ++ (at_i ∷ post)
  pub place : length pre ≡ i
  pub below : Below key pre
  pub above : Above key post

pub cut_at :
    (l : List Bytes) (i : ℕ) {x : Bytes}
    → get_elem? l i ≡ some x
    → l ≡ take i l ++ (x ∷ drop (suc i) l)
cut_at l i {x} e = sym (take-append-drop i l) ∙ ap (λ r. take i l ++ r) (drop-get_elem? l i e)

pub get_elem?-lt : (l : List Bytes) (i : ℕ) {x : Bytes} → get_elem? l i ≡ some x → i < length l
get_elem?-lt [] i h = cc
get_elem?-lt (x ∷ xs) zero h = omega arith
get_elem?-lt (x ∷ xs) (suc i) h = omega (arith, get_elem?-lt xs i h)

pub take-suc :
    (l : List Bytes) (i : ℕ) {x : Bytes}
    → get_elem? l i ≡ some x
    → take (suc i) l ≡ take i l ++ (x ∷ [])
take-suc [] i h = cc
take-suc (x ∷ xs) zero h = cc
take-suc (x ∷ xs) (suc i) h = ap (λ r. x ∷ r) (take-suc xs i h)

module _ (l : List Bytes) (key : Bytes) (sorted : IsSorted l) (i : ℕ) {x : Bytes}
    (read : get_elem? l i ≡ some x) where
  pub cut_sorted : CutsAt (take i l) x (drop (suc i) l)
  cut_sorted = IsSorted→CutsAt _ _ _ (subst IsSorted (cut_at l i read) sorted)

  pub place_take : length (take i l) ≡ i
  place_take = omega (arith, length-take i l, get_elem?-lt l i read)

  -- The cell itself, once its neighbours are known to lie on their sides.
  pub here_Locates : Below key (take i l) → Above key (drop (suc i) l) → Locates l key i
  here_Locates b a = record {
    pre = take i l;
    at_i = x;
    post = drop (suc i) l;
    cut = cut_at l i read;
    place = place_take;
    below = b;
    above = a;
  }

  pub left_Below : x ≺ key → Below key (take i l)
  left_Below h = Below-trans x key _ h cut_sorted.left_below

  pub right_Above : key ≺ x → Above key (drop (suc i) l)
  right_Above h = Above-trans key x _ h cut_sorted.right_above

  -- A place found in the left part is a place in the whole slice.
  pub extend_right : key ≺ x → (j : ℕ) → Locates (take i l) key j → Locates l key j
  extend_right h j f = record {
    pre = f.pre;
    at_i = f.at_i;
    post = f.post ++ (x ∷ drop (suc i) l);
    cut =
        cut_at l i read
        ∙ ap (λ r. r ++ (x ∷ drop (suc i) l)) f.cut
        ∙ append_assoc f.pre (f.at_i ∷ f.post) (x ∷ drop (suc i) l);
    place = f.place;
    below = f.below;
    above = All-append (λ z. key ≺ z) f.post (x ∷ drop (suc i) l) f.above (h, right_Above h);
  }

  -- And so is a place found in the right part, counted from the cut.
  pub extend_left : x ≺ key → (j : ℕ) → Locates (drop i l) key j → Locates l key (i + j)
  extend_left h j f = record {
    pre = take i l ++ f.pre;
    at_i = f.at_i;
    post = f.post;
    cut =
        sym (take-append-drop i l)
        ∙ ap (λ r. take i l ++ r) f.cut
        ∙ sym (append_assoc (take i l) f.pre (f.at_i ∷ f.post));
    place = omega (arith, length-append (take i l) f.pre, place_take, f.place);
    below = All-append (λ z. z ≺ key) (take i l) f.pre (left_Below h) f.below;
    above = f.above;
  }

-- The outcomes of one call of the search, by what it reads.
module _ (fuel : ℕ) (l : List Bytes) (key : Bytes) (start : ℕ) {x : Bytes}
    (read : get_elem? l (length l / 2) ≡ some x) where
  pub on_same :
      compare_bytes x key ≡ same
      → insert_binary_search_on (suc fuel) l key start ≡ done (length l / 2 + start)
  unfolding insert_binary_search_on
  on_same c = ground arith

  pub on_single :
      compare_bytes x key ≢ same
      → length l ≡ 1
      → insert_binary_search_on (suc fuel) l key start ≡ done (length l / 2 + start)
  unfolding insert_binary_search_on
  on_single c one = ground arith

  pub on_less :
      compare_bytes x key ≡ less
      → length l ≢ 1
      → insert_binary_search_on (suc fuel) l key start
        ≡ insert_binary_search_on fuel (drop (length l / 2) l) key (length l / 2 + start)
  unfolding insert_binary_search_on
  on_less c one = ground (arith, ≺_flip x key)

  pub on_between :
      {y : Bytes}
      → compare_bytes x key ≡ greater
      → length l ≢ 1
      → get_elem? l (length l / 2 - 1) ≡ some y
      → compare_bytes key y ≡ greater
      → insert_binary_search_on (suc fuel) l key start ≡ done (length l / 2 + start)
  unfolding insert_binary_search_on
  on_between c one e d = ground (arith, compare_bytes-greater x key)

  pub on_greater :
      {y : Bytes}
      → compare_bytes x key ≡ greater
      → length l ≢ 1
      → get_elem? l (length l / 2 - 1) ≡ some y
      → compare_bytes key y ≢ greater
      → insert_binary_search_on (suc fuel) l key start
        ≡ insert_binary_search_on fuel (take (length l / 2) l) key start
  unfolding insert_binary_search_on
  on_greater c one e d = ground (arith, compare_bytes-greater x key)
