-- ===== src/BPlusTree/Whole/Parent.antt =====
-- `update_parent` over a child that was split.
use baobab.Prelude.{
  ℕ, suc, ◌+◌, ◌-◌, ◌≤◌, ◌<◌, ◌≡◌, refl, sym, ap, subst, ◌∙◌, arith, ◌⊎◌, inl, inr, some, false,
  List, [], ◌∷◌, ◌++◌, take, drop, length, get_elem?, length-append, take-append-drop,
  get_elem?_bound,
}
use native.Mathlib.Decide.{dec_lt}
use baobab.Prelude.Run.{done}
use baobab.Prelude.Bytes.{Bytes}
use baobab.Helpers.Lsn.{ok}
use baobab.Helpers.Slices.Cut.{insert_to_list-cut, insert_behind}
use baobab.Pager.Ids.Fresh.{times, times-append}
use baobab.BPlusTree.Node.{Node, order}
use baobab.BPlusTree.Node.Halves.{split-SplitsInternal}
use baobab.BPlusTree.Leaf.Entries.{bind}
use baobab.BPlusTree.Search.Follow.{IsInternal}
use baobab.BPlusTree.Cache.{Cache, Keeps, build_page}
use baobab.BPlusTree.Cache.Writes.{loaded, read_frame}
use baobab.BPlusTree.Insert.{SplitResponse}
use baobab.BPlusTree.Insert.Propagate.{with_child, update_parent}
use baobab.BPlusTree.Whole.Tree.{
  Map, Bound, Shape, Kids, Kids-IsSorted, Kids-one_more, Tree, InnerPage, Sound,
}
use baobab.BPlusTree.Whole.Kids.{Kids-cut}
use baobab.BPlusTree.Whole.Spot.{Spot}
use baobab.BPlusTree.Whole.Steps.{Stored, Rewritten, Rewritten-Step, sync-Step, SameContent-self}
use baobab.BPlusTree.Whole.Halving.{left_half, right_half, split_full_internal-Rewritten}
use baobab.BPlusTree.Whole.Grown.{Grows, Parts, Joins-Stored}
use baobab.BPlusTree.Whole.Settle.{settle, settled_Effect, parted_Effect, counts, id_once}

module _ {S : Type 0} (c : Cache S) where
  -- An internal node as it is read back.
  pub loaded-InnerPage :
      (P : Shape) (s : S) (lo hi : Bound) (id : ℕ) (m : Map) (kid_ids : List ℕ) (n : Node)
      → build_page c s id ≡ some (loaded id n)
      → n.leaf ≡ false
      → 0 < length n.keys
      → length n.keys ≤ order - 1
      → Kids P lo hi n.keys n.children m kid_ids
      → InnerPage c P s lo hi id m (id ∷ kid_ids)
  loaded-InnerPage P s lo hi id m kid_ids n stored internal some_key fits kids = record {
    node = loaded id n;
    stored = stored;
    is_internal = internal;
    some_key = some_key;
    fits = fits;
    kid_ids = kid_ids;
    kids = rw internal kids;
    own_id = refl;
  }

module _ {S : Type 0} (c : Cache S) (k : Keeps c) (height : ℕ) (s s₁ : S) (lo hi : Bound) (id : ℕ)
    (m : Map) (ids : List ℕ) (t : InnerPage c (Tree c height s) s lo hi id m ids) (key val : Bytes)
    (i child : ℕ)
    (spot : Spot (Tree c height s) lo hi t.node.keys t.node.children m t.kid_ids key i child)
    (child_at : get_elem? t.node.children i ≡ some child) (sound : Sound c s)
    (once : (a : ℕ) → times a ids ≤ 1) (rp : SplitResponse)
    (p : Parts c height s s₁ spot.low spot.high child (bind key val spot.map) spot.own rp) where
  abbrev parent : Node
  parent = with_child (record { n = t.node; idx = i }) rp

  abbrev ParentUpdated : Type 0
  ParentUpdated =
      (s₂ : S) × (rp' : SplitResponse) × (update_parent c s₁ (record { n = t.node; idx = i }) rp
        ≡ done (ok (s₂, rp')))
      × (((rp'.new_node_id ≡ 0) × Grows c (suc height) s s₂ lo hi id (bind key val m) ids)
          ⊎ Parts c (suc height) s s₂ lo hi id (bind key val m) ids rp')

  small : i ≤ length t.node.keys
  small = omega (
    arith,
    get_elem?_bound t.node.children i child_at,
    Kids-one_more (Tree c height s) lo hi t.node.keys t.node.children m t.kid_ids t.kids,
  )

  parent_keys :
      parent.keys ≡ take i t.node.keys ++ ((rp.promoted_separator_key ∷ []) ++ drop i t.node.keys)
  parent_keys = insert_to_list-cut t.node.keys i rp.promoted_separator_key small

  parent_children :
      parent.children
      ≡ take i t.node.children ++ ((child ∷ rp.new_node_id ∷ []) ++ drop (suc i) t.node.children)
  parent_children = insert_behind t.node.children i child rp.new_node_id child_at

  at_parent :
      (P : Shape) (m' : Map) (kid_ids : List ℕ)
      → Kids P lo hi
          (take i t.node.keys ++ ((rp.promoted_separator_key ∷ []) ++ drop i t.node.keys))
          (take i t.node.children
            ++ ((child ∷ rp.new_node_id ∷ []) ++ drop (suc i) t.node.children))
          m'
          kid_ids
      → Kids P lo hi parent.keys parent.children m' kid_ids
  at_parent P m' kid_ids kids =
      subst (λ ks. Kids P lo hi ks parent.children m' kid_ids) (sym parent_keys)
        (subst
          (λ cs.
            Kids P lo hi
              (take i t.node.keys ++ ((rp.promoted_separator_key ∷ []) ++ drop i t.node.keys)) cs m'
              kid_ids)
          (sym parent_children) kids)

  length-parent_keys : length parent.keys ≡ length t.node.keys + 1
  length-parent_keys = omega (
    arith,
    ap (λ l. length l) parent_keys,
    length-append (take i t.node.keys) (rp.promoted_separator_key ∷ drop i t.node.keys),
    ap (λ l. length l) (take-append-drop i t.node.keys),
    length-append (take i t.node.keys) (drop i t.node.keys),
  )

  pair :
      Kids
        (Tree c height s₁)
        spot.low
        spot.high
        (rp.promoted_separator_key ∷ [])
        (child ∷ rp.new_node_id ∷ [])
        (bind key val spot.map)
        p.ids'
  unfolding Kids
  pair = record {
    left_map = p.trees.left_map;
    right_map = p.trees.right_map;
    left_ids = p.trees.left_ids;
    right_ids = p.trees.right_ids;
    left = p.trees.left;
    right = p.trees.right;
    past = p.trees.past;
    under = p.trees.under;
    joined = p.trees.joined;
    both_ids = p.trees.both_ids;
  }

  pair_Stored : (a : ℕ) → 0 < times a p.ids' → Stored c s₁ a
  pair_Stored a =
      Joins-Stored c height s₁ a spot.low spot.high rp.promoted_separator_key child rp.new_node_id
        (bind key val spot.map) p.ids' p.trees

  -- The parent's own page, which the child's insertion kept.
  own_page : t.node.page_id ≡ id
  own_page = (sound id t.node t.stored).own_page

  not_own : times id spot.own ≡ 0
  not_own = omega (
    arith,
    counts c height s s₁ lo hi id m ids t key i child spot once p.ids' p.effect id,
    id_once c height s s₁ lo hi id m ids t key i child spot once p.ids' p.effect,
    once id,
  )

  stored₁ :
      (n₁ : Node) × (build_page c s₁ id ≡ some n₁)
      × (n₁.leaf ≡ t.node.leaf)
      × (n₁.right_sibling ≡ t.node.right_sibling)
  stored₁ =
      let (n₁, there, same) = p.effect.kept id not_own t.node t.stored in
      (n₁, there, same.same_leaf, same.same_right)

  room : length parent.keys ≤ order - 1 → ParentUpdated
  unfolding update_parent Tree
  room fits =
      let (n₁, there, leaf, right) = stored₁ in
      let (s₂, syncs, here, step) =
        sync-Step c k s₁ id rp.op_lsn parent n₁ p.effect.sound there leaf right in
      let (kid_ids, kids, count) =
        settle c height s s₁ lo hi id m ids t key i child spot once p.ids' p.effect s₂ step.sound
          step.kept step.stays val (rp.promoted_separator_key ∷ []) (child ∷ rp.new_node_id ∷ [])
          pair in
      let (fr, _, gets, _, _) = read_frame c s₁ id there in
      (
        s₂,
        record rp { promoted_separator_key = []; new_node_id = 0 },
        ground (arith, own_page, gets, fits, syncs),
        inl (
          refl,
          record {
            ids' = id ∷ kid_ids;
            tree =
                loaded-InnerPage c (Tree c height s₂) s₂ lo hi id (bind key val m) kid_ids parent
                  here t.is_internal (omega (arith, length-parent_keys)) fits
                  (at_parent (Tree c height s₂) (bind key val m) kid_ids kids);
            effect =
                settled_Effect c height s s₁ lo hi id m ids t key i child spot once p.ids' p.effect
                  s₂ step.sound step.kept step.stays kid_ids count;
          },
        ),
      )

  -- The parent with its new child is an internal node, before it is split.
  parent-IsInternal : IsInternal parent
  parent-IsInternal =
      let (kid_ids, kids, count) =
        settle c height s s₁ lo hi id m ids t key i child spot once p.ids' p.effect s₁
          p.effect.sound (λ a q n h. (n, h, SameContent-self c n)) (λ a h. h) val
          (rp.promoted_separator_key ∷ []) (child ∷ rp.new_node_id ∷ []) pair in
      let whole : Kids (Tree c height s₁) lo hi parent.keys parent.children (bind key val m)
          kid_ids =
        at_parent (Tree c height s₁) (bind key val m) kid_ids kids in
      record {
        sorted = Kids-IsSorted _ lo hi parent.keys parent.children _ kid_ids whole;
        some_key = omega (arith, length-parent_keys);
        one_more = Kids-one_more _ lo hi parent.keys parent.children _ kid_ids whole;
      }

  overflow : order - 1 < length parent.keys → ParentUpdated
  unfolding update_parent Tree
  overflow over =
      let (n₁, there, leaf, right) = stored₁ in
      let (h, splits, x) =
        split-SplitsInternal parent rp.op_lsn parent-IsInternal t.is_internal
          (omega (arith, over)) in
      let (new, s₃, s₂, runs, syncs, r) =
        split_full_internal-Rewritten c k s₁ parent n₁ rp.op_lsn h p.effect.sound splits
          (ap (build_page c s₁) own_page ∙ there) (leaf ∙ sym x.left_kind) right x.separator
          x.is_promoted in
      let left = left_half h new in
      let right_node = right_half h parent new in
      let r' : Rewritten c s₁ s₂ id new left right_node =
        subst (λ a. Rewritten c s₁ s₂ a new left right_node) own_page r in
      let step =
        Rewritten-Step c s₁ s₂ id new left right_node n₁ p.effect.sound there r' refl (sym right) in
      let (kid_ids, kids, count) =
        settle c height s s₁ lo hi id m ids t key i child spot once p.ids' p.effect s₂ step.sound
          step.kept step.stays val (rp.promoted_separator_key ∷ []) (child ∷ rp.new_node_id ∷ [])
          pair in
      let whole : Kids (Tree c height s₂) lo hi parent.keys parent.children (bind key val m)
          kid_ids =
        at_parent (Tree c height s₂) (bind key val m) kid_ids kids in
      let two =
        Kids-cut (Tree c height s₂) lo hi x.separator h.left.keys h.left.children h.right.keys
          h.right.children (bind key val m) kid_ids x.left_internal.one_more
          (subst
            (λ cs.
              Kids (Tree c height s₂) lo hi (h.left.keys ++ (x.separator ∷ h.right.keys)) cs
                (bind key val m) kid_ids)
            x.children_cut
            (subst (λ ks. Kids (Tree c height s₂) lo hi ks parent.children (bind key val m) kid_ids)
              x.keys_around whole)) in
      let total : length h.left.keys + suc (length h.right.keys) ≤ order = omega (
        arith,
        ap (λ l. length l) x.keys_around,
        length-append h.left.keys (x.separator ∷ h.right.keys),
        length-parent_keys,
        t.fits,
      ) in
      let (fr, _, gets, _, _) = read_frame c s₁ id there in
      (
        s₂,
        record { promoted_separator_key = x.separator; new_node_id = new; op_lsn = rp.op_lsn },
        ground (arith, own_page, gets, over, runs, syncs),
        inr (record {
          positive = r'.positive;
          ids' = (id ∷ two.left_ids) ++ (new ∷ two.right_ids);
          trees = record {
            left_map = two.left_map;
            right_map = two.right_map;
            left_ids = id ∷ two.left_ids;
            right_ids = new ∷ two.right_ids;
            left =
                loaded-InnerPage c (Tree c height s₂) s₂ lo (some x.separator) id two.left_map
                  two.left_ids left r'.left_here (x.left_kind ∙ t.is_internal)
                  x.left_internal.some_key (omega (arith, total)) two.left;
            right =
                loaded-InnerPage c (Tree c height s₂) s₂ (some x.separator) hi new two.right_map
                  two.right_ids right_node r'.right_here (x.right_kind ∙ t.is_internal)
                  x.right_internal.some_key (omega (arith, total)) two.right;
            past = two.past;
            under = two.under;
            joined = two.joined;
            both_ids = refl;
          };
          effect =
              parted_Effect c height s s₁ lo hi id m ids t key i child spot once p.ids' p.effect s₂
                step.sound step.kept step.stays new two.left_ids two.right_ids r'.fresh pair_Stored
                (λ a. omega (
                  arith,
                  count a,
                  ap (times a) two.both_ids,
                  times-append a two.left_ids two.right_ids,
                ));
        }),
      )

  -- A parent whose child was split takes the new child in, or is split itself.
  pub update_parent-Tree : ParentUpdated
  update_parent-Tree = elim (dec_lt (order - 1) (length parent.keys)) [
    | yes q ↦ overflow q
    | no q ↦ room (omega (arith, q))
  ]
