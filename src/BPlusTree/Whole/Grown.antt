-- ===== src/BPlusTree/Whole/Grown.antt =====
-- What the insertion below a page leaves: one tree in its place, or two with a separator.
use baobab.Prelude.{
  ℕ, zero, suc, ◌≤◌, ◌<◌, ◌≡◌, sym, ap, ◌∙◌, arith, ◌⊎◌, inl, inr, Option-cases, none, some, List,
  [], ◌∷◌,
}
use native.Mathlib.Decide.{dec_lt, ℕ_discrete}
use baobab.Prelude.Bytes.{Bytes}
use baobab.Pager.Ids.Fresh.{times, times-append}
use baobab.BPlusTree.Cache.{Cache, build_page}
use baobab.BPlusTree.Cache.Writes.{none-not_some}
use baobab.BPlusTree.Insert.{SplitResponse}
use baobab.BPlusTree.Whole.Tree.{Map, Bound, Shape, Kids, Joins, Tree, Sound, Kept}
use baobab.BPlusTree.Whole.Steps.{Stored}

module _ {S : Type 0} (c : Cache S) where
  -- Outside the pages of the tree, all is kept; its pages are old ones and new ones.
  pub record Effect (s s' : S) (ids ids' : List ℕ) : Type 0 where
    pub sound : Sound c s'
    pub kept : (a : ℕ) → times a ids ≡ 0 → Kept c s s' a
    pub stays : (a : ℕ) → Stored c s a → Stored c s' a
    pub fresh : (a : ℕ) → 0 < times a ids' → (0 < times a ids) ⊎ (build_page c s a ≡ none)
    pub once : (a : ℕ) → times a ids' ≤ 1

  pub record Grows (height : ℕ) (s s' : S) (lo hi : Bound) (id : ℕ) (m : Map) (ids : List ℕ)
      : Type 0 where
    pub ids' : List ℕ
    pub tree : Tree c height s' lo hi id m ids'
    pub effect : Effect s s' ids ids'

  pub record Parts (height : ℕ) (s s' : S) (lo hi : Bound) (id : ℕ) (m : Map) (ids : List ℕ)
      (rp : SplitResponse) : Type 0 where
    pub positive : 0 < rp.new_node_id
    pub ids' : List ℕ
    pub trees :
        Joins
          (Tree c height s' lo (some rp.promoted_separator_key) id)
          (Tree c height s' (some rp.promoted_separator_key) hi rp.new_node_id)
          lo
          hi
          rp.promoted_separator_key
          m
          ids'
    pub effect : Effect s s' ids ids'

  Kids-Stored :
      (P : Shape) (s : S) (a : ℕ)
      → ((l h : Bound) (d : ℕ) (n : Map) (is : List ℕ)
          → P l h d n is
          → 0 < times a is
          → Stored c s a)
      → (lo hi : Bound) (ks : List Bytes) (cs : List ℕ) (m : Map) (ids : List ℕ)
      → Kids P lo hi ks cs m ids
      → 0 < times a ids
      → Stored c s a
  unfolding Kids
  Kids-Stored P s a f lo hi [] [] m ids t h = elim t [ ]
  Kids-Stored P s a f lo hi [] (d ∷ []) m ids t h = f lo hi d m ids t h
  Kids-Stored P s a f lo hi [] (d ∷ e ∷ cs) m ids t h = elim t [ ]
  Kids-Stored P s a f lo hi (k ∷ ks) [] m ids t h = elim t [ ]
  Kids-Stored P s a f lo hi (k ∷ ks) (d ∷ cs) m ids t h = elim (dec_lt 0 (times a t.left_ids)) [
    | yes p ↦ f lo (some k) d t.left_map t.left_ids t.left p
    | no p ↦
        Kids-Stored P s a f (some k) hi ks cs t.right_map t.right_ids t.right
          (omega (arith, ap (times a) t.both_ids, times-append a t.left_ids t.right_ids))
  ]

  -- The pages of a tree are there.
  pub Tree-Stored :
      (height : ℕ) (s : S) (a : ℕ) (lo hi : Bound) (id : ℕ) (m : Map) (ids : List ℕ)
      → Tree c height s lo hi id m ids
      → 0 < times a ids
      → Stored c s a
  unfolding Tree
  Tree-Stored zero s a lo hi id m ids t h = elim (ℕ_discrete a id) [
    | yes p ↦ (t.node, ap (build_page c s) p ∙ t.stored)
    | no p ↦ absurd (ground (arith, p, ap (times a) t.one_id, h))
  ]
  Tree-Stored (suc height) s a lo hi id m ids t h = elim (ℕ_discrete a id) [
    | yes p ↦ (t.node, ap (build_page c s) p ∙ t.stored)
    | no p ↦
        Kids-Stored (Tree c height s) s a
          (λ l h' d n is sub there. Tree-Stored height s a l h' d n is sub there) lo hi t.node.keys
          t.node.children m t.kid_ids t.kids (ground (arith, p, ap (times a) t.own_id, h))
  ]

  -- So are those of two trees with a separator.
  pub Joins-Stored :
      (height : ℕ) (s : S) (a : ℕ) (lo hi : Bound) (k : Bytes) (id new : ℕ) (m : Map) (ids : List ℕ)
      → Joins (Tree c height s lo (some k) id) (Tree c height s (some k) hi new) lo hi k m ids
      → 0 < times a ids
      → Stored c s a
  Joins-Stored height s a lo hi k id new m ids t h =
      let total = ap (times a) t.both_ids in
      let sum = times-append a t.left_ids t.right_ids in
      elim (dec_lt 0 (times a t.left_ids)) [
        | yes q ↦ Tree-Stored height s a lo (some k) id t.left_map t.left_ids t.left q
        | no q ↦
            Tree-Stored height s a (some k) hi new t.right_map t.right_ids t.right
              (omega (arith, h, q, total, sum))
      ]

  -- What was not there before a step is not there.
  pub stays-none :
      (s s' : S) (a : ℕ)
      → ((b : ℕ) → Stored c s b → Stored c s' b)
      → build_page c s' a ≡ none
      → build_page c s a ≡ none
  stays-none s s' a stays e = elim (Option-cases (build_page c s a)) [
    | inl h ↦ h
    | inr (n, h) ↦ absurd (none-not_some (sym e ∙ (stays a (n, h)).1))
  ]
