-- ===== src/BPlusTree/Siblings/Leaves.antt =====
-- Redistributing or merging two neighbouring leaves keeps their bindings.
use baobab.Prelude.{
  ℕ, ◌+◌, ◌/◌, ◌≤◌, ◌<◌, ◌≡◌, refl, sym, ap, ap₂, subst, ◌∙◌, arith, ◌⊎◌, inl, inr, Bool, true,
  false, List, ◌++◌, length, get_elem?, take, drop, length-take, length-drop, length-append,
  take-append-drop, get_elem?_total, some, none, Option,
}
use baobab.Prelude.Run.{done}
use baobab.Prelude.Bytes.{Bytes}
use baobab.Prelude.Sorted.{IsSorted, IsSorted-append_left, IsSorted-append_right}
use native.Mathlib.Decide.{dec_le}
use baobab.BPlusTree.Node.{Node, degree, order}
use baobab.BPlusTree.Leaf.Entries.{value_of, lookup, IsLeaf, or_else, value_of-append}
use baobab.BPlusTree.Siblings.{Balanced, merge_right, merge_left, balance_leaves}

-- The left and the right one of the two leaves.
abbrev pub left_of : Bool → Node → Node → Node
left_of true n sib = n
left_of false n sib = sib

abbrev pub right_of : Bool → Node → Node → Node
right_of true n sib = sib
right_of false n sib = n

-- Two neighbouring leaves, every key of the left one below every key of the right one.
pub record AreNeighbours (l r : Node) : Type 0 where
  pub left_leaf : IsLeaf l
  pub right_leaf : IsLeaf r
  pub ascending : IsSorted (l.keys ++ r.keys)

-- What two leaves bind together.
abbrev pub lookup_both : Node → Node → Bytes → Option Bytes
lookup_both l r j = or_else (lookup l j) (lookup r j)

-- Enough keys in both leaves, still in order, with the right leaf's first key as the new separator.
pub record Redistributed (l r l' r' : Node) (rebalance_key : Option Bytes) : Type 0 where
  pub neighbours : AreNeighbours l' r'
  pub left_full : degree ≤ length l'.keys
  pub right_full : degree ≤ length r'.keys
  pub separator : rebalance_key ≡ get_elem? r'.keys 0
  pub same_bindings : (j : Bytes) → lookup_both l' r' j ≡ lookup_both l r j

-- All keys in the sibling, which has room for them.
pub record Merged (l r sib' : Node) : Type 0 where
  pub is_leaf : IsLeaf sib'
  pub has_room : length sib'.keys < order
  pub same_bindings : (j : Bytes) → lookup sib' j ≡ lookup_both l r j

-- What `balance_leaves` owes its caller.
abbrev pub Balances : Node → Node → Bool → Balanced → Type 0
Balances n sib right b =
    ((b.merged ≡ false)
      × Redistributed (left_of right n sib) (right_of right n sib) (left_of right b.node b.sibling)
          (right_of right b.node b.sibling) b.rebalance_key)
    ⊎ ((b.merged ≡ true) × Merged (left_of right n sib) (right_of right n sib) b.sibling)

module _ (l r : Node) (h : AreNeighbours l r) where
  tot_keys : List Bytes
  tot_keys = l.keys ++ r.keys

  tot_paired : length (l.values ++ r.values) ≡ length (l.keys ++ r.keys)
  tot_paired = omega (
    arith,
    length-append l.keys r.keys,
    length-append l.values r.values,
    h.left_leaf.paired,
    h.right_leaf.paired,
  )

  merged_bindings :
      (j : Bytes) → value_of j (l.keys ++ r.keys) (l.values ++ r.values) ≡ lookup_both l r j
  merged_bindings j = value_of-append j l.keys l.values r.keys r.values h.left_leaf.paired

  -- The two leaves that hold the joined cells up to `mid` and from `mid` on.
  redistributed :
      (l' r' : Node) (mid : ℕ)
      → order ≤ length (l.keys ++ r.keys)
      → mid ≡ length (l.keys ++ r.keys) / 2
      → l'.keys ≡ take mid (l.keys ++ r.keys)
      → l'.values ≡ take mid (l.values ++ r.values)
      → r'.keys ≡ drop mid (l.keys ++ r.keys)
      → r'.values ≡ drop mid (l.values ++ r.values)
      → Redistributed l r l' r' (get_elem? (drop mid (l.keys ++ r.keys)) 0)
  redistributed l' r' mid many em lk lv rk rv = record {
    neighbours = record {
      left_leaf = record {
        sorted = subst IsSorted (sym lk) (
            IsSorted-append_left (take mid (l.keys ++ r.keys)) (drop mid (l.keys ++ r.keys)) whole);
        paired =
            rw (lk, lv)
              (omega (
                arith,
                length-take mid (l.keys ++ r.keys),
                length-take mid (l.values ++ r.values),
                tot_paired,
              ));
      };
      right_leaf = record {
        sorted = subst IsSorted (sym rk) (
            IsSorted-append_right (take mid (l.keys ++ r.keys)) (drop mid (l.keys ++ r.keys))
              whole);
        paired =
            rw (rk, rv)
              (omega (
                arith,
                length-drop mid (l.keys ++ r.keys),
                length-drop mid (l.values ++ r.values),
                tot_paired,
              ));
      };
      ascending = rw (lk, rk) whole;
    };
    left_full = rw lk (omega (arith, length-take mid (l.keys ++ r.keys)));
    right_full = rw rk (omega (arith, length-drop mid (l.keys ++ r.keys)));
    separator = ap (λ k. get_elem? k 0) (sym rk);
    same_bindings = λ j.
        ap₂ (λ a b. or_else a b) (ap₂ (value_of j) lk lv) (ap₂ (value_of j) rk rv)
        ∙ sym (
            value_of-append j (take mid (l.keys ++ r.keys)) (take mid (l.values ++ r.values))
              (drop mid (l.keys ++ r.keys)) (drop mid (l.values ++ r.values))
              (omega (
                arith,
                length-take mid (l.keys ++ r.keys),
                length-take mid (l.values ++ r.values),
                tot_paired,
              )))
        ∙ ap₂ (value_of j) (take-append-drop mid (l.keys ++ r.keys))
            (take-append-drop mid (l.values ++ r.values))
        ∙ merged_bindings j;
  }
    where
      whole : IsSorted (take mid (l.keys ++ r.keys) ++ drop mid (l.keys ++ r.keys))
      whole = subst IsSorted (sym (take-append-drop mid (l.keys ++ r.keys))) h.ascending

  merged :
      (sib' : Node)
      → length (l.keys ++ r.keys) < order
      → sib'.keys ≡ l.keys ++ r.keys
      → sib'.values ≡ l.values ++ r.values
      → Merged l r sib'
  merged sib' few ek ev = record {
    is_leaf = record {
      sorted = subst IsSorted (sym ek) h.ascending;
      paired = rw (ek, ev) tot_paired;
    };
    has_room = rw ek few;
    same_bindings = λ j. ap₂ (value_of j) ek ev ∙ merged_bindings j;
  }

-- `balance_leaves` on neighbouring leaves never panics. From `order` keys on it redistributes them:
-- both leaves then have `degree` keys at least and the rebalance key is the right leaf's first.
-- With fewer it merges them into the sibling, which does not overflow. The leaves stay in order and
-- together bind what they bound.
pub balance_leaves-Balances :
    (n sib : Node) (right : Bool)
    → AreNeighbours (left_of right n sib) (right_of right n sib)
    → (b : Balanced) × (balance_leaves n sib right ≡ done b) × Balances n sib right b
unfolding balance_leaves
balance_leaves-Balances n sib true h = elim (dec_le order (length n.keys + length sib.keys)) [
  | yes many ↦
      let many' : order ≤ length (n.keys ++ sib.keys) =
        omega (arith, length-append n.keys sib.keys) in
      let mid = length (n.keys ++ sib.keys) / 2 in
      let (k, e) =
        get_elem?_total (drop mid (n.keys ++ sib.keys)) 0
          (omega (arith, length-drop mid (n.keys ++ sib.keys))) in
      (
        record {
          node = record n {
            keys = take mid (n.keys ++ sib.keys);
            values = take mid (n.values ++ sib.values);
          };
          sibling = record sib {
            keys = drop mid (n.keys ++ sib.keys);
            values = drop mid (n.values ++ sib.values);
          };
          merged = false;
          rebalance_key = some k;
          relink = none;
          target = 0;
        },
        ground arith,
        inl (
          refl,
          subst (Redistributed n sib _ _) e
              (redistributed n sib h _ _ mid many' refl refl refl refl refl),
        ),
      )
  | no few ↦ (
    merge_right n sib,
    ground arith,
    inr (refl, merged n sib h _ (omega (arith, length-append n.keys sib.keys)) refl refl),
  )
]
balance_leaves-Balances n sib false h = elim (dec_le order (length n.keys + length sib.keys)) [
  | yes many ↦
      let many' : order ≤ length (sib.keys ++ n.keys) =
        omega (arith, length-append sib.keys n.keys) in
      let mid = length (sib.keys ++ n.keys) / 2 in
      let (k, e) =
        get_elem?_total (drop mid (sib.keys ++ n.keys)) 0
          (omega (arith, length-drop mid (sib.keys ++ n.keys))) in
      (
        record {
          node = record n {
            keys = drop mid (sib.keys ++ n.keys);
            values = drop mid (sib.values ++ n.values);
          };
          sibling = record sib {
            keys = take mid (sib.keys ++ n.keys);
            values = take mid (sib.values ++ n.values);
          };
          merged = false;
          rebalance_key = some k;
          relink = none;
          target = 0;
        },
        ground arith,
        inl (
          refl,
          subst (Redistributed sib n _ _) e
              (redistributed sib n h _ _ mid many' refl refl refl refl refl),
        ),
      )
  | no few ↦ (
    merge_left n sib,
    ground arith,
    inr (refl, merged sib n h _ (omega (arith, length-append sib.keys n.keys)) refl refl),
  )
]
