-- ===== src/Prelude/Sorted.antt =====
-- Strictly ascending lists of byte keys.
use mathlib.Core.List.{List, [], ◌∷◌, ◌++◌}
use baobab.Prelude.Lists.{All, All-append, All-append_left, All-append_right, All-impl}
use baobab.Prelude.Bytes.{Bytes, ◌≺◌, ≺_trans}

-- Every key of the list is below `k`, or above it.
abbrev pub Below : Bytes → List Bytes → Type 0
Below k = All (λ x. x ≺ k)

abbrev pub Above : Bytes → List Bytes → Type 0
Above k = All (λ x. k ≺ x)

abbrev pub IsSorted : List Bytes → Type 0
IsSorted [] = Unit
IsSorted (x ∷ xs) = Above x xs × IsSorted xs

pub Below-trans : (j k : Bytes) (xs : List Bytes) → j ≺ k → Below j xs → Below k xs
Below-trans j k xs h = All-impl (λ x. x ≺ j) (λ x. x ≺ k) (λ x p. ≺_trans x j k p h) xs

pub Above-trans : (j k : Bytes) (xs : List Bytes) → j ≺ k → Above k xs → Above j xs
Above-trans j k xs h = All-impl (λ x. k ≺ x) (λ x. j ≺ x) (λ x p. ≺_trans j k x h p) xs

-- A sorted list cut at a key: both sides are sorted and lie on their side of the key.
pub record CutsAt (pre : List Bytes) (x : Bytes) (post : List Bytes) : Type 0 where
  pub left_sorted : IsSorted pre
  pub right_sorted : IsSorted post
  pub left_below : Below x pre
  pub right_above : Above x post

pub IsSorted→CutsAt :
    (pre : List Bytes) (x : Bytes) (post : List Bytes)
    → IsSorted (pre ++ (x ∷ post))
    → CutsAt pre x post
IsSorted→CutsAt [] x post h = record {
  left_sorted = tt;
  right_sorted = h.1;
  left_below = tt;
  right_above = h.0;
}
IsSorted→CutsAt (y ∷ pre) x post h =
    let cut = IsSorted→CutsAt pre x post h.1 in
    record {
      left_sorted = (All-append_left (λ z. y ≺ z) pre (x ∷ post) h.0, cut.left_sorted);
      right_sorted = cut.right_sorted;
      left_below = ((All-append_right (λ z. y ≺ z) pre (x ∷ post) h.0).0, cut.left_below);
      right_above = cut.right_above;
    }

pub IsSorted-append :
    (pre : List Bytes) (x : Bytes) (post : List Bytes)
    → CutsAt pre x post
    → IsSorted (pre ++ (x ∷ post))
IsSorted-append [] x post c = (c.right_above, c.right_sorted)
IsSorted-append (y ∷ pre) x post c = (
  All-append (λ z. y ≺ z) pre (x ∷ post) c.left_sorted.0
      (c.left_below.0, Above-trans y x post c.left_below.0 c.right_above),
  IsSorted-append pre x post (record {
    left_sorted = c.left_sorted.1;
    right_sorted = c.right_sorted;
    left_below = c.left_below.1;
    right_above = c.right_above;
  }),
)

pub IsSorted-append_left : (xs ys : List Bytes) → IsSorted (xs ++ ys) → IsSorted xs
IsSorted-append_left [] ys h = tt
IsSorted-append_left (x ∷ xs) ys h =
    (All-append_left (λ z. x ≺ z) xs ys h.0, IsSorted-append_left xs ys h.1)

pub IsSorted-append_right : (xs ys : List Bytes) → IsSorted (xs ++ ys) → IsSorted ys
IsSorted-append_right [] ys h = h
IsSorted-append_right (x ∷ xs) ys h = IsSorted-append_right xs ys h.1

-- Two sorted lists on either side of a key.
pub IsSorted-append_both :
    (k : Bytes) (xs ys : List Bytes)
    → IsSorted xs
    → IsSorted ys
    → Below k xs
    → Above k ys
    → IsSorted (xs ++ ys)
IsSorted-append_both k [] ys hx hy below above = hy
IsSorted-append_both k (x ∷ xs) ys hx hy below above = (
  All-append (λ z. x ≺ z) xs ys hx.0 (Above-trans x k ys below.0 above),
  IsSorted-append_both k xs ys hx.1 hy below.1 above,
)
