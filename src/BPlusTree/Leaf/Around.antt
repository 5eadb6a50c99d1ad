-- ===== src/BPlusTree/Leaf/Around.antt =====
-- A leaf around the cell that the search located.
use baobab.Prelude.{
  ℕ, ◌<◌, ◌≡◌, refl, ap, subst, ◌∙◌, arith, List, [], ◌∷◌, ◌++◌, length, get_elem?,
  get_elem?-append, some, leb, false,
}
use baobab.Prelude.Bytes.{Bytes}
use baobab.Prelude.Sorted.{IsSorted, CutsAt, IsSorted→CutsAt}
use baobab.Helpers.Search.Locates.{Locates}
use baobab.Helpers.Slices.Cut.{cut_like}
use baobab.BPlusTree.Node.{Node}
use baobab.BPlusTree.Leaf.Entries.{IsLeaf}

pub no_cells : (l : List Bytes) → length l ≡ 0 → l ≡ []
no_cells [] h = refl
no_cells (x ∷ l) h = absurd (omega arith)

pub not_empty : (n : Node) → 0 < length n.keys → leb (length n.keys) 0 ≡ false
not_empty n h = ground arith

module _ (n : Node) (key : Bytes) (leaf : IsLeaf n) (i : ℕ) (f : Locates n.keys key i) where
  pub keys_around : CutsAt f.pre f.at_i f.post
  keys_around = IsSorted→CutsAt f.pre f.at_i f.post (subst IsSorted f.cut leaf.sorted)

  pub values_around :
      (vs : List Bytes) × (v : Bytes) × (vs' : List Bytes) × (n.values ≡ vs ++ (v ∷ vs'))
      × (length vs ≡ length f.pre)
      × (length vs' ≡ length f.post)
  values_around = cut_like f.pre f.post f.at_i n.values (leaf.paired ∙ ap (λ l. length l) f.cut)

  pub read_key : get_elem? n.keys i ≡ some f.at_i
  read_key = ap (λ l. get_elem? l i) f.cut ∙ get_elem?-append f.pre f.post f.at_i i f.place

  pub read_value : (v : Bytes) × (get_elem? n.values i ≡ some v)
  read_value =
      let (vs, v, vs', e, p, q) = values_around in
      (v, ap (λ l. get_elem? l i) e ∙ get_elem?-append vs vs' v i (p ∙ f.place))
