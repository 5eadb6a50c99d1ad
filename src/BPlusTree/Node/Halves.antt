-- ===== src/BPlusTree/Node/Halves.antt =====
-- Both kinds of split hand each key on to the part where a search for it will go.
use baobab.Prelude.{
  ℕ, suc, ◌-◌, ◌/◌, ◌<◌, ◌≡◌, refl, sym, ap, ap₂, subst, ◌∙◌, arith, ◌⊎◌, inl, inr, true, false,
  List, ◌∷◌, ◌++◌, length, get_elem?, take, drop, length-take, length-drop, take-append-drop,
  drop-get_elem?, get_elem?_total, some, none, Option,
}
use baobab.Prelude.Run.{done}
use baobab.Prelude.Bytes.{
  Bytes, compare_bytes, ◌≺◌, compare_bytes-same, compare_bytes-greater, Cmp-cases,
}
use baobab.Prelude.Sorted.{
  Below, Above, IsSorted, CutsAt, IsSorted→CutsAt, Below-trans, Above-trans, IsSorted-append_right,
}
use baobab.BPlusTree.Node.{Node, Split, new_node, split}
use baobab.BPlusTree.Search.Follow.{IsInternal}
use baobab.BPlusTree.Leaf.Entries.{
  value_of, lookup, IsLeaf, or_else, value_of-append, value_of-Below, value_of-Above,
}

-- The two leaves of a split, and the first key of the right one, which becomes the separator.
pub record SplitsLeaf (n : Node) (s : Split) : Type 0 where
  pub separator : Bytes
  pub first : get_elem? s.right.keys 0 ≡ some separator
  pub left_kind : s.left.leaf ≡ n.leaf
  pub right_kind : s.right.leaf ≡ n.leaf
  pub keys_cut : n.keys ≡ s.left.keys ++ s.right.keys
  pub left_leaf : IsLeaf s.left
  pub right_leaf : IsLeaf s.right
  pub goes_left : (j : Bytes) → j ≺ separator → lookup s.left j ≡ lookup n j
  pub goes_right : (j : Bytes) → ¬ (j ≺ separator) → lookup s.right j ≡ lookup n j
  pub left_size : length s.left.keys ≡ length n.keys / 2
  pub right_size : length s.right.keys ≡ length n.keys - length n.keys / 2

or_else-none : (o : Option Bytes) → or_else o none ≡ o
or_else-none none = refl
or_else-none (some v) = refl

pub not_less : (j k : Bytes) → ¬ (j ≺ k) → (k ≺ j) ⊎ (j ≡ k)
not_less j k h = elim (Cmp-cases (compare_bytes j k)) [
  | inl c ↦ absurd (h c)
  | inr (inl c) ↦ inr (compare_bytes-same j k c)
  | inr (inr c) ↦ inl (compare_bytes-greater j k c)
]

whole_keys :
    (ks : List Bytes) (m : ℕ) {sep : Bytes}
    → get_elem? ks m ≡ some sep
    → take m ks ++ (sep ∷ drop (suc m) ks) ≡ ks
whole_keys ks m read =
    ap (λ r. take m ks ++ r) (sym (drop-get_elem? ks m read)) ∙ take-append-drop m ks

-- Lists of keys and values, cut at one index.
module _ (ks vs : List Bytes) (sorted : IsSorted ks) (paired : length vs ≡ length ks) (m : ℕ)
    {sep : Bytes} (read : get_elem? ks m ≡ some sep) where
  around : CutsAt (take m ks) sep (drop (suc m) ks)
  around = IsSorted→CutsAt _ _ _ (subst IsSorted (sym (whole_keys ks m read)) sorted)

  value_of-cut :
      (j : Bytes)
      → value_of j ks vs
        ≡ or_else (value_of j (take m ks) (take m vs)) (value_of j (drop m ks) (drop m vs))
  value_of-cut j =
      ap₂ (value_of j) (sym (take-append-drop m ks)) (sym (take-append-drop m vs))
      ∙ value_of-append j (take m ks) (take m vs) (drop m ks) (drop m vs)
          (omega (arith, length-take m ks, length-take m vs))

  value_of-left : (j : Bytes) → j ≺ sep → value_of j (take m ks) (take m vs) ≡ value_of j ks vs
  value_of-left j h =
      let above : Above j (drop m ks) =
        subst (Above j) (sym (drop-get_elem? ks m read))
          (h, Above-trans j sep _ h around.right_above) in
      sym (or_else-none _)
      ∙ ap (or_else (value_of j (take m ks) (take m vs)))
          (sym (value_of-Above j (drop m ks) (drop m vs) above))
      ∙ sym (value_of-cut j)

  value_of-right : (j : Bytes) → ¬ (j ≺ sep) → value_of j (drop m ks) (drop m vs) ≡ value_of j ks vs
  value_of-right j h =
      let below : Below j (take m ks) = elim (not_less j sep h) [
        | inl c ↦ Below-trans sep j _ c around.left_below
        | inr c ↦ subst (λ k. Below k (take m ks)) (sym c) around.left_below
      ] in
      ap (λ o. or_else o (value_of j (drop m ks) (drop m vs)))
        (sym (value_of-Below j (take m ks) (take m vs) below))
      ∙ sym (value_of-cut j)

split_leaf_runs :
    (n : Node) (lsn : Bytes)
    → n.leaf ≡ true
    → length n.values ≡ length n.keys
    → (s : Split) × (split n lsn ≡ done s)
      × (s.left.keys ≡ take (length n.keys / 2) n.keys)
      × (s.left.values ≡ take (length n.keys / 2) n.values)
      × (s.right.keys ≡ drop (length n.keys / 2) n.keys)
      × (s.right.values ≡ drop (length n.keys / 2) n.values)
      × (s.left.leaf ≡ n.leaf)
      × (s.right.leaf ≡ n.leaf)
unfolding split
split_leaf_runs n lsn leaf paired =
    let m = length n.keys / 2 in
    (
      record {
        left = record n { keys = take m n.keys; values = take m n.values };
        right = record (new_node (drop m n.keys) true) { values = drop m n.values; lsn = lsn };
        promoted = none;
      },
      ground arith,
      refl,
      refl,
      refl,
      refl,
      refl,
      sym leaf,
    )

-- Splitting a leaf that is not empty never panics. It gives two leaves of half the size each, in
-- order; keys below the first key of the right leaf are bound in the left leaf as they were, and
-- all other keys are bound in the right leaf as they were.
pub split-SplitsLeaf :
    (n : Node) (lsn : Bytes)
    → IsLeaf n
    → n.leaf ≡ true
    → 0 < length n.keys
    → (s : Split) × (split n lsn ≡ done s) × SplitsLeaf n s
split-SplitsLeaf n lsn w leaf some_key =
    let m = length n.keys / 2 in
    let (s, runs, lk, lv, rk, rv, ll, rl) = split_leaf_runs n lsn leaf w.paired in
    let (sep, read) = get_elem?_total n.keys m (omega arith) in
    (
      s,
      runs,
      record {
        separator = sep;
        first = ap (λ l. get_elem? l 0) (rk ∙ drop-get_elem? n.keys m read);
        left_kind = ll;
        right_kind = rl;
        keys_cut = sym (take-append-drop m n.keys) ∙ ap₂ (λ a b. a ++ b) (sym lk) (sym rk);
        left_leaf = record {
          sorted =
              subst IsSorted (sym lk) (around n.keys n.values w.sorted w.paired m read).left_sorted;
          paired =
              rw (lk, lv) (omega (arith, length-take m n.keys, length-take m n.values, w.paired));
        };
        right_leaf = record {
          sorted = subst IsSorted (sym rk) (
              IsSorted-append_right (take m n.keys) (drop m n.keys)
                (subst IsSorted (sym (take-append-drop m n.keys)) w.sorted));
          paired =
              rw (rk, rv) (omega (arith, length-drop m n.keys, length-drop m n.values, w.paired));
        };
        goes_left = λ j h.
            ap₂ (value_of j) lk lv ∙ value_of-left n.keys n.values w.sorted w.paired m read j h;
        goes_right = λ j h.
            ap₂ (value_of j) rk rv ∙ value_of-right n.keys n.values w.sorted w.paired m read j h;
        left_size = rw lk (omega (arith, length-take m n.keys));
        right_size = rw rk (omega (arith, length-drop m n.keys));
      },
    )

-- The two internal nodes of a split, with the promoted separator between them.
pub record SplitsInternal (n : Node) (s : Split) : Type 0 where
  pub separator : Bytes
  pub is_promoted : s.promoted ≡ some separator
  pub keys_around : n.keys ≡ s.left.keys ++ (separator ∷ s.right.keys)
  pub in_middle : length s.left.keys ≡ length n.keys / 2
  pub children_cut : n.children ≡ s.left.children ++ s.right.children
  pub left_kind : s.left.leaf ≡ n.leaf
  pub right_kind : s.right.leaf ≡ n.leaf
  pub left_internal : IsInternal s.left
  pub right_internal : IsInternal s.right

split_internal_runs :
    (n : Node) (lsn : Bytes) {sep : Bytes}
    → n.leaf ≡ false
    → get_elem? n.keys (length n.keys / 2) ≡ some sep
    → length n.children ≡ suc (length n.keys)
    → 2 < length n.keys
    → (s : Split) × (split n lsn ≡ done s)
      × (s.promoted ≡ some sep)
      × (s.left.keys ≡ take (length n.keys / 2) n.keys)
      × (s.left.children ≡ take (suc (length n.keys / 2)) n.children)
      × (s.right.keys ≡ drop (suc (length n.keys / 2)) n.keys)
      × (s.right.children ≡ drop (suc (length n.keys / 2)) n.children)
      × (s.left.leaf ≡ n.leaf)
      × (s.right.leaf ≡ n.leaf)
unfolding split
split_internal_runs n lsn {sep} internal read one_more large =
    let m = length n.keys / 2 in
    (
      record {
        left = record n { keys = take m n.keys; children = take (suc m) n.children };
        right = record (new_node (drop (suc m) n.keys) false) {
          children = drop (suc m) n.children;
          lsn = lsn;
        };
        promoted = some sep;
      },
      ground arith,
      refl,
      refl,
      refl,
      refl,
      refl,
      refl,
      sym internal,
    )

-- Splitting an internal node of three keys or more never panics. The key at half their number, rounded
-- down, is promoted, the
-- keys before and after it and the children go to the two nodes in order, and both are internal
-- nodes again: keys ascend, with one child more than keys.
pub split-SplitsInternal :
    (n : Node) (lsn : Bytes)
    → IsInternal n
    → n.leaf ≡ false
    → 2 < length n.keys
    → (s : Split) × (split n lsn ≡ done s) × SplitsInternal n s
split-SplitsInternal n lsn w internal large =
    let m = length n.keys / 2 in
    let (sep, read) = get_elem?_total n.keys m (omega arith) in
    let (s, runs, pr, lk, lc, rk, rc, ll, rl) =
      split_internal_runs n lsn internal read w.one_more large in
    let whole = whole_keys n.keys m read in
    let c = IsSorted→CutsAt _ _ _ (subst IsSorted (sym whole) w.sorted) in
    (
      s,
      runs,
      record {
        separator = sep;
        is_promoted = pr;
        keys_around = sym whole ∙ ap₂ (λ a b. a ++ (sep ∷ b)) (sym lk) (sym rk);
        in_middle = rw lk (omega (arith, length-take m n.keys));
        children_cut =
            sym (take-append-drop (suc m) n.children) ∙ ap₂ (λ a b. a ++ b) (sym lc) (sym rc);
        left_kind = ll;
        right_kind = rl;
        left_internal = record {
          sorted = subst IsSorted (sym lk) c.left_sorted;
          some_key = rw lk (omega (arith, length-take m n.keys));
          one_more =
              rw (lk, lc)
                (omega (arith, length-take m n.keys, length-take (suc m) n.children, w.one_more));
        };
        right_internal = record {
          sorted = subst IsSorted (sym rk) c.right_sorted;
          some_key = rw rk (omega (arith, length-drop (suc m) n.keys));
          one_more =
              rw (rk, rc)
                (omega
                  (arith, length-drop (suc m) n.keys, length-drop (suc m) n.children, w.one_more));
        };
      },
    )
