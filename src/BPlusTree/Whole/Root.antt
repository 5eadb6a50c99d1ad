-- ===== src/BPlusTree/Whole/Root.antt =====
-- New roots: over a split one, and in an empty tree.
use baobab.Prelude.{
  ℕ, zero, suc, ◌≤◌, ◌<◌, ◌≡◌, ◌≢◌, refl, sym, ap, subst, ◌∙◌, arith, none, some, true, false, List,
  [], ◌∷◌, length,
}
use native.Mathlib.Decide.{dec_lt, ℕ_discrete}
use baobab.Prelude.Run.{done}
use baobab.Prelude.Bytes.{Bytes}
use baobab.Helpers.Lsn.{ok}
use baobab.Pager.Ids.Fresh.{times}
use baobab.BPlusTree.Node.{Node, new_node, create_node}
use baobab.BPlusTree.Leaf.Entries.{bind}
use baobab.BPlusTree.Cache.{Cache, Keeps, build_page}
use baobab.BPlusTree.Cache.Writes.{
  loaded, read_frame, same_frame, sync-Written, assign_frame-Created, some-injective, none-not_some,
}
use baobab.BPlusTree.Insert.{BTree, SplitResponse}
use baobab.BPlusTree.Insert.Propagate.{add_root}
use baobab.BPlusTree.Insert.Value.{insert_root}
use baobab.BPlusTree.Whole.Tree.{Map, Kids, Tree, Tree-Kept, Sound, PageSound, Kept}
use baobab.BPlusTree.Whole.Kids.{same_map}
use baobab.BPlusTree.Whole.Steps.{SameContent-self}
use baobab.BPlusTree.Whole.Grown.{Parts, Joins-Stored}
use baobab.BPlusTree.Whole.LeafInsert.{log_put_runs}
use baobab.BPlusTree.Whole.LeafStep.{loaded-LeafPage}
use baobab.BPlusTree.Whole.Parent.{loaded-InnerPage}

-- The pages of the cache make a tree below the root, for the map.
pub record IsTree {S : Type 0} (c : Cache S) (height : ℕ) (bt : BTree S) (m : Map) : Type 0 where
  pub sound : Sound c bt.cache
  pub ids : List ℕ
  pub once : (a : ℕ) → times a ids ≤ 1
  pub tree : Tree c height bt.cache none none bt.root m ids

abbrev pub empty : Map
empty j = none

module _ {S : Type 0} (c : Cache S) where
  -- One page more.
  record Added (s s' : S) (new : ℕ) (n : Node) : Type 0 where
    positive : 0 < new
    fresh : build_page c s new ≡ none
    here : build_page c s' new ≡ some (loaded new n)
    elsewhere : (j : ℕ) → j ≢ new → build_page c s' j ≡ build_page c s j

  module _ (s s' : S) (new : ℕ) (n : Node) (sound : Sound c s) (d : Added s s' new n) where
    added_Kept : (a : ℕ) → Kept c s s' a
    added_Kept a m h = elim (ℕ_discrete a new) [
      | yes p ↦ absurd (none-not_some (sym d.fresh ∙ (ap (build_page c s) (sym p) ∙ h)))
      | no p ↦ (m, d.elsewhere a p ∙ h, SameContent-self c m)
    ]

    added_Sound : n.right_sibling ≡ 0 → Sound c s'
    added_Sound alone a m h = elim (ℕ_discrete a new) [
      | yes p ↦
          let same : loaded new n ≡ m =
            some-injective (sym d.here ∙ (ap (build_page c s') (sym p) ∙ h)) in
          let there : PageSound c s' new (loaded new n) = record {
            positive = d.positive;
            own_page = refl;
            right_apart = λ e. omega (arith, d.positive, alone, e);
            right_there = λ q. absurd (omega (arith, alone, q));
          } in
          subst (λ b. PageSound c s' b m) (sym p) (subst (λ x. PageSound c s' new x) same there)
      | no p ↦
          let old = sound a m (sym (d.elsewhere a p) ∙ h) in
          record {
            positive = old.positive;
            own_page = old.own_page;
            right_apart = old.right_apart;
            right_there = λ q.
                let (x, e) = old.right_there q in
                let (x', e', _) = added_Kept m.right_sibling x e in (x', e');
          }
    ]

  module _ (k : Keeps c) where
    pub add_root-IsTree :
        (height : ℕ) (s : S) (bt : BTree S) (m : Map) (ids : List ℕ) (rp : SplitResponse)
        → Parts c height s bt.cache none none bt.root m ids rp
        → (bt' : BTree S) × (add_root c bt rp ≡ done (ok bt')) × IsTree c (suc height) bt' m
    unfolding add_root create_node Tree Kids
    add_root-IsTree height s bt m ids rp p =
        let root_node : Node = record (new_node (rp.promoted_separator_key ∷ []) false) {
          children = bt.root ∷ rp.new_node_id ∷ [];
        } in
        let (new, s₁, creates, w₁) = assign_frame-Created c k bt.cache root_node rp.op_lsn true in
        let (n₁, made, kind) = w₁.made in
        let node : Node = record root_node { page_id = new } in
        let (s₂, syncs, w₂) = sync-Written c k s₁ new rp.op_lsn node made kind in
        let added : Added bt.cache s₂ new node = record {
          positive = w₁.positive;
          fresh = w₁.fresh;
          here = w₂.here;
          elsewhere = λ j q. w₂.elsewhere j q ∙ w₁.elsewhere j q;
        } in
        let kept = added_Kept bt.cache s₂ new node p.effect.sound added in
        let t = p.trees in
        (
          record bt { root = new; cache = s₂ },
          ground (arith, creates, syncs),
          record {
            sound = added_Sound bt.cache s₂ new node p.effect.sound added refl;
            ids = new ∷ p.ids';
            once = λ a. elim (ℕ_discrete a new) [
              | yes q ↦ elim (dec_lt 0 (times a p.ids')) [
                | yes there ↦
                    let (x, e) =
                      Joins-Stored c height bt.cache a none none rp.promoted_separator_key bt.root
                        rp.new_node_id m p.ids' t there in
                    absurd (none-not_some (sym w₁.fresh ∙ (ap (build_page c bt.cache) (sym q) ∙ e)))
                | no gone ↦ ground (arith, gone, q)
              ]
              | no q ↦ ground (arith, q, p.effect.once a)
            ];
            tree =
                loaded-InnerPage c (Tree c height s₂) s₂ none none new m p.ids' node w₂.here refl
                  (omega arith) (omega arith)
                  (record {
                    left_map = t.left_map;
                    right_map = t.right_map;
                    left_ids = t.left_ids;
                    right_ids = t.right_ids;
                    left =
                        Tree-Kept c height bt.cache s₂ _ _ bt.root t.left_map t.left_ids
                          (λ a h. kept a) t.left;
                    right =
                        Tree-Kept c height bt.cache s₂ _ _ rp.new_node_id t.right_map t.right_ids
                          (λ a h. kept a) t.right;
                    past = t.past;
                    under = t.under;
                    joined = t.joined;
                    both_ids = t.both_ids;
                  });
          },
        )

    pub insert_root-IsTree :
        (bt : BTree S) (lsn key val : Bytes)
        → Sound c bt.cache
        → 0 < length key
        → 0 < length val
        → (bt' : BTree S) × (lsn' : Bytes) × (insert_root c bt lsn key val ≡ done (ok (bt', lsn')))
          × IsTree c zero bt' (bind key val empty)
    unfolding insert_root Tree
    insert_root-IsTree bt lsn key val sound some_key some_val =
        let node : Node = record (new_node (key ∷ []) true) { values = val ∷ [] } in
        let (new, s₁, creates, w₁) = assign_frame-Created c k bt.cache node [] true in
        let (n₁, made, kind) = w₁.made in
        let (logged, logs) = log_put_runs bt.wal lsn new key val some_key some_val in
        let (fr, _, gets, _, _) = read_frame c s₁ new made in
        let (s₂, updates, same) = k.updates_lsn s₁ new fr logged.0 gets in
        let (s₃, syncs, w₃) =
          sync-Written c k s₂ new logged.0 node (same_frame c s₁ s₂ new (same new) ∙ made) kind in
        let added : Added bt.cache s₃ new node = record {
          positive = w₁.positive;
          fresh = w₁.fresh;
          here = w₃.here;
          elsewhere = λ j q. w₃.elsewhere j q ∙ (same_frame c s₁ s₂ j (same j) ∙ w₁.elsewhere j q);
        } in
        (
          record bt { root = new; wal = logged.1; cache = s₃ },
          logged.0,
          ground (arith, creates, logs, updates, syncs),
          record {
            sound = added_Sound bt.cache s₃ new node sound added refl;
            ids = new ∷ [];
            once = λ a. ground arith;
            tree =
                loaded-LeafPage c s₃ none none new (bind key val empty) node w₃.here refl
                  (record { sorted = (tt, tt); paired = refl }) (omega arith) (omega arith) (tt, tt)
                  (tt, tt) (same_map λ j. ground arith);
          },
        )
