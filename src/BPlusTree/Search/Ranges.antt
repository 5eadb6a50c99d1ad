-- ===== src/BPlusTree/Search/Ranges.antt =====
-- What `rangeSearch` returns from a leaf.
use baobab.Prelude.{
  ℕ, ◌≤◌, ◌<◌, ◌≡◌, refl, sym, ap, ap₂, subst, ◌∙◌, arith, ◌⊎◌, inl, inr, true, length, some, none,
  Option, List, [], ◌∷◌, ◌++◌, drop, drop-append, get_elem?_bound, All, All-impl,
}
use baobab.Prelude.Run.{done}
use baobab.Prelude.Bytes.{
  Bytes, less, same, greater, compare_bytes, compare_bytes-same, compare_bytes_self, ◌≺◌, ≺_flip,
  Cmp-cases,
}
use baobab.Prelude.Sorted.{Below}
use baobab.Helpers.Search.{insert_binary_search}
use baobab.Helpers.Search.Locates.{Locates, insert_binary_search-Locates}
use baobab.BPlusTree.Node.{Node}
use baobab.BPlusTree.Leaf.Entries.{lookup, IsLeaf}
use baobab.BPlusTree.Leaf.Around.{read_key, read_value, values_around}
use baobab.BPlusTree.Leaf.Remove.{lookup-at}
use baobab.BPlusTree.Search.{
  RangeItem, items_from, RangeAnswer, items, range_key_not_found, range_at, range_search,
}

-- The pairs whose keys are not below the key, in their order.
pub not_below : Bytes → List Bytes → List Bytes → List RangeItem
not_below key [] vs = []
not_below key (k ∷ ks) [] = []
not_below key (k ∷ ks) (v ∷ vs) =
    let rest = not_below key ks vs in
    let whole : List RangeItem = record { key = k; val = v } ∷ rest in
    elim (compare_bytes k key) [ less ↦ rest | same ↦ whole | greater ↦ whole ]

abbrev pub range_answer_of : Node → Bytes → Option Bytes → RangeAnswer
range_answer_of n key none = range_key_not_found
range_answer_of n key (some v) = items (not_below key n.keys n.values) n.right_sibling

-- A key that is not below.
abbrev NotBelow : Bytes → Bytes → Type 0
NotBelow key k = (compare_bytes k key ≡ same) ⊎ (compare_bytes k key ≡ greater)

items_from-not_below :
    (key : Bytes) (ks vs : List Bytes)
    → All (NotBelow key) ks
    → length vs ≡ length ks
    → items_from ks vs ≡ done (not_below key ks vs)
unfolding items_from not_below
items_from-not_below key [] vs all h = refl
items_from-not_below key (k ∷ ks) [] all h = absurd (omega arith)
items_from-not_below key (k ∷ ks) (v ∷ vs) all h =
    ground (arith, items_from-not_below key ks vs all.1 (omega arith), all.0)

not_below-append :
    (key : Bytes) (pre ks ws vs : List Bytes)
    → Below key pre
    → length ws ≡ length pre
    → not_below key (pre ++ ks) (ws ++ vs) ≡ not_below key ks vs
unfolding not_below
not_below-append key [] ks [] vs all h = refl
not_below-append key [] ks (w ∷ ws) vs all h = absurd (omega arith)
not_below-append key (p ∷ pre) ks [] vs all h = absurd (omega arith)
not_below-append key (p ∷ pre) ks (w ∷ ws) vs all h =
    ground (arith, all.0, not_below-append key pre ks ws vs all.1 (omega arith))

module _ (n : Node) (key : Bytes) (leaf : IsLeaf n) (i : ℕ) (f : Locates n.keys key i) where
  -- What `rangeSearch` collects where the search found the key itself.
  collected :
      compare_bytes key f.at_i ≡ same
      → items_from (drop i n.keys) (drop i n.values) ≡ done (not_below key n.keys n.values)
  collected c =
      let (vs, v, vs', e, p, q) = values_around n key leaf i f in
      let here : key ≡ f.at_i = compare_bytes-same key f.at_i c in
      ap₂ items_from (ap (drop i) f.cut ∙ drop-append f.pre (f.at_i ∷ f.post) i f.place)
        (ap (drop i) e ∙ drop-append vs (v ∷ vs') i (p ∙ f.place))
      ∙ items_from-not_below key (f.at_i ∷ f.post) (v ∷ vs')
          (
            inl (subst (λ k. compare_bytes k key ≡ same) here (compare_bytes_self key)),
            All-impl (λ k. key ≺ k) (NotBelow key) (λ k h. inr (≺_flip key k h)) f.post f.above,
          )
          (omega (arith, q))
      ∙ ap done (
          sym (not_below-append key f.pre (f.at_i ∷ f.post) vs (v ∷ vs') f.below p)
          ∙ ap₂ (not_below key) (sym f.cut) (sym e))

  range_at-lookup : range_at n key i ≡ done (range_answer_of n key (lookup n key))
  range_at-lookup = elim (Cmp-cases (compare_bytes key f.at_i)) [
    | inl c ↦ ground (arith, read_key n key leaf i f, lookup-at n key leaf i f)
    | inr (inl c) ↦
        let (v, e) = read_value n key leaf i f in
        let inside : i ≤ length n.values = omega (arith, get_elem?_bound n.values i e) in
        ground (arith, read_key n key leaf i f, lookup-at n key leaf i f, e, inside, collected c)
    | inr (inr c) ↦ ground (arith, read_key n key leaf i f, lookup-at n key leaf i f)
  ]

-- In a leaf with a key at least, `rangeSearch` never panics. Where the leaf binds the key it returns all
-- pairs of the leaf whose keys are not below it, in their order, and the leaf's right sibling; where it
-- does not, it says "Key not found", also when the leaf has greater keys.
pub range_search-lookup :
    (n : Node) (key : Bytes)
    → IsLeaf n
    → n.leaf ≡ true
    → 0 < length n.keys
    → range_search n key ≡ done (range_answer_of n key (lookup n key))
unfolding range_search
range_search-lookup n key leaf is_leaf some_key =
    let (i, e, f) = insert_binary_search-Locates n.keys key 0 some_key leaf.sorted in
    let at_i : insert_binary_search n.keys key 0 ≡ done i = e ∙ ap done (omega arith) in
    ground (arith, at_i, range_at-lookup n key leaf i f, leaf.paired)
