-- ===== src/BPlusTree/Whole/LeafStep.antt =====
-- `insert` on a leaf of a tree.
use baobab.Prelude.{
  ℕ, ◌+◌, ◌≤◌, ◌<◌, ◌≡◌, refl, sym, ap, subst, ◌∙◌, arith, inl, inr, true, none, some, List, [],
  ◌∷◌, ◌++◌, length, All, get_elem?, All-append_left, All-append_right, All-impl,
}
use baobab.Prelude.Bytes.{
  Bytes, compare_bytes, ◌≺◌, ≺_trans, compare_bytes-same, compare_bytes_self, Cmp-cases,
}
use baobab.Prelude.Sorted.{IsSorted, CutsAt, IsSorted→CutsAt}
use baobab.BPlusTree.Node.{Node, Split, order}
use baobab.BPlusTree.Node.Halves.{SplitsLeaf, not_less}
use baobab.BPlusTree.Leaf.Entries.{lookup, IsLeaf}
use baobab.BPlusTree.Leaf.Put.{Binds}
use baobab.BPlusTree.Cache.{Cache, build_page}
use baobab.BPlusTree.Cache.Writes.{loaded, some-injective}
use baobab.BPlusTree.Whole.Tree.{Map, Bound, NotUnder, Past, Under, choose, Joins, LeafPage}
use baobab.BPlusTree.Whole.Kids.{same_map, choose-below, choose-from}
use baobab.BPlusTree.Whole.Halving.{left_half, right_half}
use baobab.BPlusTree.Whole.Shapes.{All-value_of, value_of-All}

-- The keys of a leaf after an insertion are old ones and the new one.
pub put_bounds :
    (P : Bytes → Type 0) (n n' : Node) (key val : Bytes)
    → Binds n key val n'
    → All P n.keys
    → P key
    → All P n'.keys
put_bounds P n n' key val b all at_key = value_of-All P n'.keys n'.values b.0.paired (λ j ne.
    elim (Cmp-cases (compare_bytes j key)) [
      | inl e ↦ All-value_of P n.keys n.values j all (λ r. ne (ground (arith, e, r, b.1 j)))
      | inr (inl e) ↦ subst P (sym (compare_bytes-same j key e)) at_key
      | inr (inr e) ↦ All-value_of P n.keys n.values j all (λ r. ne (ground (arith, e, r, b.1 j)))
    ])

module _ {S : Type 0} (c : Cache S) where
  -- A leaf as it is read back.
  pub loaded-LeafPage :
      (s : S) (lo hi : Bound) (id : ℕ) (m : Map) (n : Node)
      → build_page c s id ≡ some (loaded id n)
      → n.leaf ≡ true
      → IsLeaf n
      → 0 < length n.keys
      → length n.keys ≤ order
      → All (NotUnder lo) n.keys
      → All (Under hi) n.keys
      → m ≡ lookup n
      → LeafPage c s lo hi id m (id ∷ [])
  loaded-LeafPage s lo hi id m n stored leaf shape some_key fits from below binds = record {
    node = loaded id n;
    stored = stored;
    is_leaf = leaf;
    shape = record { sorted = shape.sorted; paired = rw leaf shape.paired };
    some_key = some_key;
    fits = fits;
    from = from;
    below = below;
    binds = rw leaf binds;
    one_id = refl;
  }

  Past-first : (lo : Bound) (k sep : Bytes) → NotUnder lo k → k ≺ sep → Past lo sep
  Past-first none k sep h p = tt
  Past-first (some l) k sep h p = elim (not_less k l h) [
    | inl q ↦ ≺_trans l k sep q p
    | inr q ↦ subst (λ x. x ≺ sep) q p
  ]

  Past-left :
      (lo : Bound) (sep : Bytes) (ks : List Bytes)
      → 0 < length ks
      → All (NotUnder lo) ks
      → All (λ k. k ≺ sep) ks
      → Past lo sep
  Past-left lo sep [] h from below = absurd (omega arith)
  Past-left lo sep (k ∷ ks) h from below = Past-first lo k sep from.0 below.0

  NotUnder-self : (sep : Bytes) → NotUnder (some sep) sep
  NotUnder-self sep h = cc (compare_bytes_self sep)

  above-NotUnder :
      (sep : Bytes) (ks : List Bytes) → All (λ k. sep ≺ k) ks → All (NotUnder (some sep)) ks
  above-NotUnder sep ks =
      All-impl (λ k. sep ≺ k) (NotUnder (some sep))
        (λ k p q. cc (≺_trans sep k sep p q, compare_bytes_self sep)) ks

  first_cons :
      (sep : Bytes) (ks : List Bytes)
      → get_elem? ks 0 ≡ some sep
      → (t : List Bytes) × (ks ≡ sep ∷ t)
  first_cons sep [] h = cc
  first_cons sep (k ∷ ks) h = (ks, ap (λ x. x ∷ ks) (some-injective h))

  halves_choose :
      (n : Node) (h : Split) (x : SplitsLeaf n h)
      → lookup n ≡ choose x.separator (lookup h.left) (lookup h.right)
  halves_choose n h x = same_map λ j. elim (Cmp-cases (compare_bytes j x.separator)) [
    | inl e ↦
        sym (x.goes_left j e) ∙ sym (choose-below x.separator (lookup h.left) (lookup h.right) j e)
    | inr e ↦
        let from : ¬ (j ≺ x.separator) = λ p. ground (arith, e, p) in
        sym (x.goes_right j from)
        ∙ sym (choose-from x.separator (lookup h.left) (lookup h.right) j from)
  ]

  -- The halves of a leaf that was split, once they are stored.
  pub halves_Joins :
      (s : S) (lo hi : Bound) (id new : ℕ) (m : Map) (n n₁ : Node) (h : Split) (x : SplitsLeaf n h)
      → build_page c s id ≡ some (loaded id (left_half h new))
      → build_page c s new ≡ some (loaded new (right_half h n₁ new))
      → n.leaf ≡ true
      → IsSorted n.keys
      → 1 < length n.keys
      → length n.keys ≤ order + 1
      → All (NotUnder lo) n.keys
      → All (Under hi) n.keys
      → m ≡ lookup n
      → Joins
          (LeafPage c s lo (some x.separator) id)
          (LeafPage c s (some x.separator) hi new)
          lo
          hi
          x.separator
          m
          (id ∷ new ∷ [])
  halves_Joins s lo hi id new m n n₁ h x at_id at_new leaf sorted some_keys fits from below binds =
      let (rest, right_keys) = first_cons x.separator h.right.keys x.first in
      let cut : CutsAt h.left.keys x.separator rest =
        IsSorted→CutsAt h.left.keys x.separator rest
          (subst IsSorted (x.keys_cut ∙ ap (λ l. h.left.keys ++ l) right_keys) sorted) in
      let all_from = subst (All (NotUnder lo)) x.keys_cut from in
      let all_below = subst (All (Under hi)) x.keys_cut below in
      let from_left = All-append_left (NotUnder lo) h.left.keys h.right.keys all_from in
      let below_right = All-append_right (Under hi) h.left.keys h.right.keys all_below in
      let (at_separator, below_rest) = subst (All (Under hi)) right_keys below_right in
      record {
        left_map = lookup h.left;
        right_map = lookup h.right;
        left_ids = id ∷ [];
        right_ids = new ∷ [];
        left =
            loaded-LeafPage s lo (some x.separator) id (lookup h.left) (left_half h new) at_id
              (x.left_kind ∙ leaf)
              (record { sorted = x.left_leaf.sorted; paired = x.left_leaf.paired })
              (omega (arith, x.left_size)) (omega (arith, x.left_size)) from_left cut.left_below
              refl;
        right =
            loaded-LeafPage s (some x.separator) hi new (lookup h.right) (right_half h n₁ new)
              at_new (x.right_kind ∙ leaf)
              (record { sorted = x.right_leaf.sorted; paired = x.right_leaf.paired })
              (omega (arith, x.right_size)) (omega (arith, x.right_size))
              (subst (All (NotUnder (some x.separator))) (sym right_keys)
                (NotUnder-self x.separator, above-NotUnder x.separator rest cut.right_above))
              below_right refl;
        past =
            Past-left lo x.separator h.left.keys (omega (arith, x.left_size)) from_left
              cut.left_below;
        under = at_separator;
        joined = binds ∙ halves_choose n h x;
        both_ids = refl;
      }
