-- ===== src/BPlusTree/Whole/Grow.antt =====
-- `descend` and `propagate` below one page of a tree, by induction on its height.
use baobab.Prelude.{
  ℕ, zero, suc, ◌+◌, ◌-◌, ◌≤◌, ◌<◌, ◌≡◌, ◌≢◌, refl, ap, ◌∙◌, arith, ◌⊎◌, inl, inr, some, List, [],
  ◌∷◌, length, get_elem?,
}
use baobab.Prelude.Run.{done}
use baobab.Prelude.Bytes.{Bytes}
use baobab.Pager.Ids.Fresh.{times}
use baobab.BPlusTree.Leaf.Entries.{bind}
use baobab.BPlusTree.Search.{follow}
use baobab.BPlusTree.Search.Follow.{follow-Routes}
use baobab.BPlusTree.Stack.{TraversePath, BtStack, add}
use baobab.BPlusTree.Stack.Refines.{Represents, add-Represents, pop-cons, popped, popped-Represents}
use baobab.BPlusTree.Cache.{Cache, Keeps}
use baobab.BPlusTree.Insert.{BTree, SplitResponse, or_failed}
use baobab.BPlusTree.Insert.Propagate.{Propagating, propagate_step, propagate}
use baobab.BPlusTree.Insert.Value.{descend}
use baobab.BPlusTree.Whole.Tree.{
  Map, Bound, NotUnder, Under, Kids, Tree, LeafPage, InnerPage, InnerPage-IsInternal, Sound, Kept,
}
use baobab.BPlusTree.Whole.Spot.{Spot, Kids-Spot}
use baobab.BPlusTree.Whole.Steps.{SameContent-self}
use baobab.BPlusTree.Whole.Grown.{Grows, Parts}
use baobab.BPlusTree.Whole.LeafInsert.{insert-LeafPage}
use baobab.BPlusTree.Whole.Settle.{settle, settled_Effect, counts, id_once}
use baobab.BPlusTree.Whole.Parent.{update_parent-Tree}
use baobab.BPlusTree.Whole.Follows.{insert-follow, same-Kids}

module _ {S : Type 0} (c : Cache S) (k : Keeps c) (key val : Bytes) (some_key : 0 < length key)
    (some_val : 0 < length val) (lsn : Bytes) where
  -- What is left to do after the descent: to propagate a split, or nothing.
  pub record Grew (height : ℕ) (bt : BTree S) (l : List TraversePath) (lo hi : Bound) (id : ℕ)
      (m : Map) (ids : List ℕ) (fuel up : ℕ) (p : Propagating S) : Type 0 where
    pub p' : Propagating S
    pub up' : ℕ
    pub runs :
        (or_failed (descend c fuel lsn key val id p) λ q. propagate c up q) ≡ propagate c up' p'
    pub same_root : p'.bt.root ≡ bt.root
    pub result :
        ((p'.rp.new_node_id ≡ 0)
          × (0 < up')
          × Grows c height bt.cache p'.bt.cache lo hi id (bind key val m) ids)
        ⊎ (Represents p'.stack l
            × (up ≤ up' + height)
            × Parts c height bt.cache p'.bt.cache lo hi id (bind key val m) ids p'.rp)

  Grew-leaf :
      (bt : BTree S) (rp : SplitResponse) (st : BtStack) (l : List TraversePath) (lo hi : Bound)
      (id : ℕ) (m : Map) (ids : List ℕ) (fuel up : ℕ)
      → LeafPage c bt.cache lo hi id m ids
      → Sound c bt.cache
      → NotUnder lo key
      → Under hi key
      → rp.new_node_id ≡ 0
      → 0 < up
      → Represents st l
      → Grew zero bt l lo hi id m ids (suc (suc fuel)) up (record { bt = bt; rp = rp; stack = st })
  unfolding descend
  Grew-leaf bt rp st l lo hi id m ids fuel up t sound from below no_split some_up r =
      let (w, s', rp', inserts, result) =
        insert-LeafPage c k bt lsn key val rp st lo hi id m ids t sound from below some_key
          some_val in
      let positive = (sound id t.node t.stored).positive in
      record {
        p' = record { bt = record bt { wal = w; cache = s' }; rp = rp'; stack = st };
        up' = up;
        runs = ground (arith, positive, t.stored, inserts);
        same_root = refl;
        result = elim result [
          | inl (same, grows) ↦
              inl (ap (λ (x : SplitResponse). x.new_node_id) same ∙ no_split, some_up, grows)
          | inr parts ↦ inr (r, omega arith, parts)
        ];
      }

  -- One level up from a child that has grown.
  module _ (height : ℕ) (bt : BTree S) (rp : SplitResponse) (st : BtStack) (l : List TraversePath)
      (lo hi : Bound) (id : ℕ) (m : Map) (ids : List ℕ) (fuel up : ℕ)
      (t : InnerPage c (Tree c height bt.cache) bt.cache lo hi id m ids) (sound : Sound c bt.cache)
      (once : (a : ℕ) → times a ids ≤ 1) (step : ℕ × ℕ) (follows : follow t.node key ≡ done step)
      (child_at : get_elem? t.node.children step.1 ≡ some step.0)
      (spot : Spot
        (Tree c height bt.cache)
        lo
        hi
        t.node.keys
        t.node.children
        m
        t.kid_ids
        key
        step.1
        step.0) where
    abbrev path : TraversePath
    path = record { n = t.node; idx = step.1 }

    abbrev start : Propagating S
    start = record { bt = bt; rp = rp; stack = st }

    abbrev below_start : Propagating S
    below_start = record { bt = bt; rp = rp; stack = add st path }

    goes_down :
        (or_failed (descend c (suc fuel) lsn key val id start) λ q. propagate c up q)
        ≡ (or_failed (descend c fuel lsn key val step.0 below_start) λ q. propagate c up q)
    unfolding descend
    goes_down =
        let positive = (sound id t.node t.stored).positive in
        let inserts =
          insert-follow c bt lsn t.node key val rp st step (InnerPage-IsInternal c t) t.is_internal
            follows in
        ground (arith, positive, t.stored, inserts)

    module _
        (g : Grew height bt
          (path ∷ l)
          spot.low
          spot.high
          step.0
          spot.map
          spot.own
          fuel
          up
          below_start) where
      grown_child :
          Grows c height bt.cache g.p'.bt.cache spot.low spot.high step.0
            (bind key val spot.map)
            spot.own
          → Grows c (suc height) bt.cache g.p'.bt.cache lo hi id (bind key val m) ids
      unfolding Tree Kids
      grown_child w =
          let s₁ = g.p'.bt.cache in
          let not_own : times id spot.own ≡ 0 = omega (
            arith,
            counts c height bt.cache s₁ lo hi id m ids t key step.1 step.0 spot once w.ids' w.effect
                id,
            id_once c height bt.cache s₁ lo hi id m ids t key step.1 step.0 spot once w.ids'
                w.effect,
            once id,
          ) in
          let (n₁, there, same) = w.effect.kept id not_own t.node t.stored in
          let kept : (a : ℕ) → a ≢ id → Kept c s₁ s₁ a = λ a q n h. (n, h, SameContent-self c n) in
          let (kid_ids, kids, count) =
            settle c height bt.cache s₁ lo hi id m ids t key step.1 step.0 spot once w.ids' w.effect
              s₁ w.effect.sound kept (λ a h. h) val [] (step.0 ∷ []) w.tree in
          record {
            ids' = id ∷ kid_ids;
            tree = record {
              node = n₁;
              stored = there;
              is_internal = same.same_leaf ∙ t.is_internal;
              some_key = rw same.same_keys t.some_key;
              fits = rw same.same_keys t.fits;
              kid_ids = kid_ids;
              kids =
                  same-Kids (Tree c height s₁) lo hi n₁ t.node (bind key val m) kid_ids step.1
                    step.0 child_at same.same_keys (same.same_children t.is_internal) kids;
              own_id = refl;
            };
            effect =
                settled_Effect c height bt.cache s₁ lo hi id m ids t key step.1 step.0 spot once
                  w.ids' w.effect s₁ w.effect.sound kept (λ a h. h) kid_ids count;
          }

      split_child :
          (up₁ : ℕ)
          → g.up' ≡ suc up₁
          → 0 < up₁
          → up ≤ up₁ + suc height
          → Represents g.p'.stack (path ∷ l)
          → Parts c height bt.cache g.p'.bt.cache spot.low spot.high step.0
              (bind key val spot.map)
              spot.own
              g.p'.rp
          → Grew (suc height) bt l lo hi id m ids (suc fuel) up start
      unfolding propagate propagate_step
      split_child up₁ has_fuel more enough r parts =
          let (s₂, rp', updates, result) =
            update_parent-Tree c k height bt.cache g.p'.bt.cache lo hi id m ids t key val step.1
              step.0 spot child_at sound once g.p'.rp parts in
          let p'' : Propagating S = record {
            bt = record g.p'.bt { cache = s₂ };
            rp = rp';
            stack = popped g.p'.stack;
          } in
          record {
            p' = p'';
            up' = up₁;
            runs =
                goes_down
                ∙ g.runs
                ∙ ap (λ f. propagate c f g.p') has_fuel
                ∙ ground (arith, parts.positive, r.counted, pop-cons g.p'.stack path l r, updates);
            same_root = g.same_root;
            result = elim result [
              | inl (no_split, grows) ↦ inl (no_split, more, grows)
              | inr halves ↦ inr (popped-Represents g.p'.stack path l r, enough, halves)
            ];
          }

      Grew-inner : height + 3 ≤ up → Grew (suc height) bt l lo hi id m ids (suc fuel) up start
      Grew-inner room = elim g.result [
        | inl (no_split, some_up, w) ↦ record {
          p' = g.p';
          up' = g.up';
          runs = goes_down ∙ g.runs;
          same_root = g.same_root;
          result = inl (no_split, some_up, grown_child w);
        }
        | inr (r, enough, parts) ↦
            split_child (g.up' - 1) (omega (arith, enough, room)) (omega (arith, enough, room))
              (omega (arith, enough, room)) r parts
      ]

  -- Below every page of a tree, by induction.
  pub grew :
      (height : ℕ) (bt : BTree S) (rp : SplitResponse) (st : BtStack) (l : List TraversePath)
      (lo hi : Bound) (id : ℕ) (m : Map) (ids : List ℕ) (fuel up : ℕ)
      → Tree c height bt.cache lo hi id m ids
      → Sound c bt.cache
      → ((a : ℕ) → times a ids ≤ 1)
      → NotUnder lo key
      → Under hi key
      → rp.new_node_id ≡ 0
      → height + 2 ≤ fuel
      → height + 2 ≤ up
      → Represents st l
      → Grew height bt l lo hi id m ids fuel up (record { bt = bt; rp = rp; stack = st })
  unfolding Tree
  grew height bt rp st l lo hi id m ids zero up t sound once f b no_split h room r =
      absurd (omega arith)
  grew zero bt rp st l lo hi id m ids (suc zero) up t sound once f b no_split h room r =
      absurd (omega arith)
  grew zero bt rp st l lo hi id m ids (suc (suc fuel)) up t sound once f b no_split h room r =
      Grew-leaf bt rp st l lo hi id m ids fuel up t sound f b no_split (omega arith) r
  grew (suc height) bt rp st l lo hi id m ids (suc fuel) up t sound once f b no_split h room r =
      let w = InnerPage-IsInternal c t in
      let (step, follows, routes) = follow-Routes t.node key w in
      let spot =
        Kids-Spot (Tree c height bt.cache) lo hi t.node.keys t.node.children m t.kid_ids key step.1
          step.0 t.kids f b routes.child_at routes.before routes.after in
      let path : TraversePath = record { n = t.node; idx = step.1 } in
      let g =
        grew height bt rp (add st path) (path ∷ l) spot.low spot.high step.0 spot.map spot.own fuel
          up spot.tree sound (λ a. omega (arith, once a, ap (times a) t.own_id, spot.counted a))
          spot.from spot.below no_split (omega arith) (omega arith) (add-Represents st path l r) in
      Grew-inner height bt rp st l lo hi id m ids fuel up t sound once step follows routes.child_at
        spot g (omega arith)
