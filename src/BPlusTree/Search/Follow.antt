-- ===== src/BPlusTree/Search/Follow.antt =====
-- An internal node sends a key to the child between the separators around it.
use baobab.Prelude.{
  ℕ, suc, ◌+◌, ◌<◌, ◌≡◌, sym, ap, subst, ◌∙◌, arith, ◌⊎◌, inl, inr, List, [], ◌∷◌, ◌++◌,
  append_assoc, length, get_elem?, take, drop, length-append, get_elem?-append, take-append,
  drop-append, All, All-impl, All-append, some, get_elem?_total,
}
use baobab.Prelude.Run.{done}
use baobab.Prelude.Bytes.{
  Bytes, compare_bytes, ◌≺◌, compare_bytes-same, compare_bytes-greater, Cmp-cases,
}
use baobab.Prelude.Sorted.{Below, Above, IsSorted}
use baobab.Helpers.Search.{insert_binary_search}
use baobab.Helpers.Search.Locates.{Locates, insert_binary_search-Locates}
use baobab.BPlusTree.Node.{Node}
use baobab.BPlusTree.Search.{follow_at, follow}

-- An internal node: separators ascend strictly, with one child more than separators.
pub record IsInternal (n : Node) : Type 0 where
  pub sorted : IsSorted n.keys
  pub some_key : 0 < length n.keys
  pub one_more : length n.children ≡ suc (length n.keys)

abbrev pub AtMost : Bytes → List Bytes → Type 0
AtMost key = All (λ k. (k ≺ key) ⊎ (k ≡ key))

-- The child `step.0` stands at `step.1`: separators before it are at most `key`, those after above.
pub record Routes (n : Node) (key : Bytes) (step : ℕ × ℕ) : Type 0 where
  pub child_at : get_elem? n.children step.1 ≡ some step.0
  pub before : AtMost key (take step.1 n.keys)
  pub after : Above key (drop step.1 n.keys)

Below→AtMost : (key : Bytes) (ks : List Bytes) → Below key ks → AtMost key ks
Below→AtMost key = All-impl (λ k. k ≺ key) (λ k. (k ≺ key) ⊎ (k ≡ key)) (λ k p. inl p)

module _ (n : Node) (key : Bytes) (w : IsInternal n) (i : ℕ) (f : Locates n.keys key i) where
  length_keys : length n.keys ≡ i + suc (length f.post)
  length_keys =
      ap (λ l. length l) f.cut ∙ omega (arith, length-append f.pre (f.at_i ∷ f.post), f.place)

  pub read_separator : get_elem? n.keys i ≡ some f.at_i
  read_separator = ap (λ l. get_elem? l i) f.cut ∙ get_elem?-append f.pre f.post f.at_i i f.place

  Routes-before :
      {child : ℕ} → key ≺ f.at_i → get_elem? n.children i ≡ some child → Routes n key (child, i)
  Routes-before h e = record {
    child_at = e;
    before =
        subst (AtMost key) (sym (ap (take i) f.cut ∙ take-append f.pre (f.at_i ∷ f.post) i f.place))
          (Below→AtMost key f.pre f.below);
    after =
        subst (Above key) (sym (ap (drop i) f.cut ∙ drop-append f.pre (f.at_i ∷ f.post) i f.place))
          (h, f.above);
  }

  take_after : take (i + 1) n.keys ≡ f.pre ++ (f.at_i ∷ [])
  take_after =
      ap (take (i + 1)) (f.cut ∙ sym (append_assoc f.pre (f.at_i ∷ []) f.post))
      ∙ take-append (f.pre ++ (f.at_i ∷ [])) f.post (i + 1)
          (omega (arith, length-append f.pre (f.at_i ∷ []), f.place))

  drop_after : drop (i + 1) n.keys ≡ f.post
  drop_after =
      ap (drop (i + 1)) (f.cut ∙ sym (append_assoc f.pre (f.at_i ∷ []) f.post))
      ∙ drop-append (f.pre ++ (f.at_i ∷ [])) f.post (i + 1)
          (omega (arith, length-append f.pre (f.at_i ∷ []), f.place))

  Routes-after :
      {child : ℕ}
      → (f.at_i ≺ key) ⊎ (f.at_i ≡ key)
      → get_elem? n.children (i + 1) ≡ some child
      → Routes n key (child, i + 1)
  Routes-after h e = record {
    child_at = e;
    before = subst (AtMost key) (sym take_after) (
        All-append (λ k. (k ≺ key) ⊎ (k ≡ key)) f.pre (f.at_i ∷ []) (Below→AtMost key f.pre f.below)
          (h, tt));
    after = subst (Above key) (sym drop_after) f.above;
  }

  follow_at-Routes : (step : ℕ × ℕ) × (follow_at n key i ≡ done step) × Routes n key step
  unfolding follow_at
  follow_at-Routes =
      let (child, e) = get_elem?_total n.children i (omega (arith, w.one_more, length_keys)) in
      let (child', e') =
        get_elem?_total n.children (i + 1) (omega (arith, w.one_more, length_keys)) in
      elim (Cmp-cases (compare_bytes key f.at_i)) [
        | inl c ↦ ((child, i), ground (arith, read_separator), Routes-before c e)
        | inr (inl c) ↦ (
          (child', i + 1),
          ground (arith, read_separator),
          Routes-after (inr (sym (compare_bytes-same key f.at_i c))) e',
        )
        | inr (inr c) ↦ (
          (child', i + 1),
          ground (arith, read_separator),
          Routes-after (inl (compare_bytes-greater key f.at_i c)) e',
        )
      ]

-- On an internal node the choice of the child never panics: every separator before the child is at
-- most the key, and every separator from it on is greater.
pub follow-Routes :
    (n : Node) (key : Bytes)
    → IsInternal n
    → (step : ℕ × ℕ) × (follow n key ≡ done step) × Routes n key step
unfolding follow
follow-Routes n key w =
    let (i, e, f) = insert_binary_search-Locates n.keys key 0 w.some_key w.sorted in
    let (step, e', r) = follow_at-Routes n key w i f in
    let at_i : insert_binary_search n.keys key 0 ≡ done i = e ∙ ap done (omega arith) in
    (step, rw at_i e', r)
