-- ===== src/Helpers/Slices/Cut.antt =====
-- The slice edits on a list that is written as two parts.
use baobab.Prelude.{
  ℕ, zero, suc, ◌≡◌, refl, ap, arith, List, [], ◌∷◌, ◌++◌, append-nil, length, set, drop,
  length-append, take-append, drop-append, take, take-append-drop, length-take, get_elem?,
  get_elem?_bound, some, append_assoc, ◌+◌, ◌≤◌, ◌∙◌, sym,
}
use baobab.Helpers.Slices.{insert_to_list}

module _ {ℓ} {A : Type ℓ} where
  -- Inserting at the border of two parts puts the value between them.
  pub insert_to_list-append :
      (xs ys : List A) (n : ℕ) (v : A)
      → length xs ≡ n
      → insert_to_list (xs ++ ys) n v ≡ xs ++ (v ∷ ys)
  unfolding insert_to_list
  insert_to_list-append xs [] n v h =
      rw append-nil (ground (arith, take-append xs [] n h, drop-append xs [] n h))
  insert_to_list-append xs (y ∷ ys) n v h =
      ground
        (arith, length-append xs (y ∷ ys), take-append xs (y ∷ ys) n h, drop-append xs (y ∷ ys) n h)

  pub set-append :
      (xs ys : List A) (x v : A) (n : ℕ) → length xs ≡ n → set (xs ++ (x ∷ ys)) n v ≡ xs ++ (v ∷ ys)
  set-append [] ys x v zero h = refl
  set-append [] ys x v (suc n) h = absurd (omega arith)
  set-append (y ∷ xs) ys x v zero h = absurd (omega arith)
  set-append (y ∷ xs) ys x v (suc n) h = ap (λ l. y ∷ l) (set-append xs ys x v n (omega arith))

  pub drop-suc-append :
      (xs ys : List A) (x : A) (n : ℕ) → length xs ≡ n → drop (suc n) (xs ++ (x ∷ ys)) ≡ ys
  drop-suc-append [] ys x zero h = refl
  drop-suc-append [] ys x (suc n) h = absurd (omega arith)
  drop-suc-append (y ∷ xs) ys x zero h = absurd (omega arith)
  drop-suc-append (y ∷ xs) ys x (suc n) h = drop-suc-append xs ys x n (omega arith)

  -- A list as long as one with a marked cell, cut at that cell.
  pub cut_like {κ} :
      {B : Type κ} (as' bs : List B) (b : B) (xs : List A)
      → length xs ≡ length (as' ++ (b ∷ bs))
      → (pre : List A) × (x : A) × (post : List A) × (xs ≡ pre ++ (x ∷ post))
        × (length pre ≡ length as')
        × (length post ≡ length bs)
  cut_like [] bs b [] h = absurd (omega arith)
  cut_like [] bs b (x ∷ xs) h = ([], x, xs, refl, refl, omega arith)
  cut_like (a ∷ as') bs b [] h = absurd (omega arith)
  cut_like (a ∷ as') bs b (x ∷ xs) h =
      let (pre, y, post, e, p, q) = cut_like as' bs b xs (omega arith) in
      (x ∷ pre, y, post, ap (λ l. x ∷ l) e, ap suc p, q)

  take-suc :
      (xs : List A) (i : ℕ) (x : A)
      → get_elem? xs i ≡ some x
      → take (suc i) xs ≡ take i xs ++ (x ∷ [])
  take-suc [] i x h = cc
  take-suc (y ∷ xs) zero x h = cc
  take-suc (y ∷ xs) (suc i) x h = ap (λ l. y ∷ l) (take-suc xs i x h)

  -- Inserting at any place up to the end.
  pub insert_to_list-cut :
      (xs : List A) (i : ℕ) (v : A)
      → i ≤ length xs
      → insert_to_list xs i v ≡ take i xs ++ (v ∷ drop i xs)
  insert_to_list-cut xs i v h =
      ap (λ l. insert_to_list l i v) (sym (take-append-drop i xs))
      ∙ insert_to_list-append (take i xs) (drop i xs) i v (omega (arith, length-take i xs, h))

  -- Inserting behind a given cell.
  pub insert_behind :
      (xs : List A) (i : ℕ) (x v : A)
      → get_elem? xs i ≡ some x
      → insert_to_list xs (i + 1) v ≡ take i xs ++ (x ∷ v ∷ drop (suc i) xs)
  insert_behind xs i x v h =
      let next : i + 1 ≡ suc i = omega arith in
      insert_to_list-cut xs (i + 1) v (omega (arith, get_elem?_bound xs i h))
      ∙ ap (λ j. take j xs ++ (v ∷ drop j xs)) next
      ∙ ap (λ l. l ++ (v ∷ drop (suc i) xs)) (take-suc xs i x h)
      ∙ append_assoc (take i xs) (x ∷ []) (v ∷ drop (suc i) xs)
