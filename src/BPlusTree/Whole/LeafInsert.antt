-- ===== src/BPlusTree/Whole/LeafInsert.antt =====
-- `insert` on a leaf of a tree: the leaf binds the key, or two leaves do.
use baobab.Prelude.{
  ℕ, zero, ◌≤◌, ◌<◌, ◌≡◌, ◌≢◌, refl, sym, ap, subst, ◌∙◌, arith, ◌⊎◌, inl, inr, true, Option-cases,
  none, some, List, [], ◌∷◌, length, All,
}
use native.Mathlib.Decide.{dec_lt, ℕ_discrete}
use baobab.Prelude.Run.{done}
use baobab.Prelude.Bytes.{Bytes, compare_bytes_self}
use baobab.Helpers.Lsn.{ok}
use baobab.Helpers.Search.{insert_binary_search}
use baobab.Helpers.Search.Locates.{Locates, insert_binary_search-Locates}
use baobab.Pager.Ids.Fresh.{times}
use baobab.Wal.Writer.{Wal, add_put_log}
use baobab.BPlusTree.Node.{Node, order}
use baobab.BPlusTree.Node.Halves.{split-SplitsLeaf}
use baobab.BPlusTree.Leaf.{put_at}
use baobab.BPlusTree.Leaf.Entries.{lookup, value_of, bind, IsLeaf}
use baobab.BPlusTree.Leaf.Around.{read_key}
use baobab.BPlusTree.Leaf.Put.{Binds, put_at-Binds}
use baobab.BPlusTree.Stack.{BtStack}
use baobab.BPlusTree.Cache.{Cache, Keeps, build_page}
use baobab.BPlusTree.Cache.Writes.{none-not_some}
use baobab.BPlusTree.Insert.{BTree, SplitResponse, insert, sync_leaf}
use baobab.BPlusTree.Leaf.{log_put}
use baobab.BPlusTree.Whole.Tree.{Map, Bound, NotUnder, Under, LeafPage, Tree, Sound}
use baobab.BPlusTree.Whole.Kids.{same_map}
use baobab.BPlusTree.Whole.Steps.{Step, Rewritten, Rewritten-Step, sync-Step}
use baobab.BPlusTree.Whole.Halving.{left_half, right_half, split_full_leaf-Rewritten}
use baobab.BPlusTree.Whole.Shapes.{put_at-OnlyCells}
use baobab.BPlusTree.Whole.Grown.{Effect, Grows, Parts}
use baobab.BPlusTree.Whole.LeafStep.{put_bounds, loaded-LeafPage, halves_Joins}

add_put_log_runs :
    (w : Wal) (page_id : ℕ) (key val : Bytes)
    → 0 < length key
    → 0 < length val
    → add_put_log w page_id key val ≢ none
unfolding add_put_log
add_put_log_runs w page_id key val some_key some_val h = ground (arith, h)

pub log_put_runs :
    (w : Wal) (lsn : Bytes) (page_id : ℕ) (key val : Bytes)
    → 0 < length key
    → 0 < length val
    → (logged : Bytes × Wal) × (log_put w lsn page_id key val ≡ done logged)
unfolding log_put
log_put_runs w lsn page_id key val some_key some_val =
    elim (Option-cases (add_put_log w page_id key val)) [
      | inl e ↦ absurd (add_put_log_runs w page_id key val some_key some_val e)
      | inr (logged, e) ↦ elim (dec_lt 0 (length lsn)) [
        | yes p ↦ ((lsn, w), ground (arith, p))
        | no p ↦ (logged, ground (arith, p, e))
      ]
    ]

keys_not_empty : (n n' : Node) (key val : Bytes) → Binds n key val n' → 0 < length n'.keys
keys_not_empty n n' key val b = elim (dec_lt 0 (length n'.keys)) [
  | yes p ↦ p
  | no p ↦ absurd (none-not_some (sym (no_value key n'.keys n'.values p) ∙ bound))
]
  where
    bound : lookup n' key ≡ some val
    bound = b.1 key ∙ ground (arith, compare_bytes_self key)

    no_value : (j : Bytes) (ks vs : List Bytes) → ¬ (0 < length ks) → value_of j ks vs ≡ none
    no_value j [] vs h = refl
    no_value j (k ∷ ks) vs h = absurd (h (omega arith))

module _ {S : Type 0} (c : Cache S) where
  Step-Effect :
      (s s' : S) (id : ℕ) (ids : List ℕ)
      → ids ≡ id ∷ []
      → Step c s s' id
      → Effect c s s' ids (id ∷ [])
  Step-Effect s s' id ids one step = record {
    sound = step.sound;
    kept = λ a h. step.kept a (λ p. ground (arith, p, h, ap (times a) one));
    stays = step.stays;
    fresh = λ a h. inl (ground (arith, h, ap (times a) one));
    once = λ a. ground arith;
  }

  Rewritten-Effect :
      (s s' : S) (id new : ℕ) (left right n : Node) (ids : List ℕ)
      → ids ≡ id ∷ []
      → build_page c s id ≡ some n
      → Step c s s' id
      → Rewritten c s s' id new left right
      → Effect c s s' ids (id ∷ new ∷ [])
  Rewritten-Effect s s' id new left right n ids one stored step r =
      let apart : id ≢ new =
        λ p. none-not_some (sym r.fresh ∙ (ap (build_page c s) (sym p) ∙ stored)) in
      record {
        sound = step.sound;
        kept = λ a h. step.kept a (λ p. ground (arith, p, h, ap (times a) one));
        stays = step.stays;
        fresh = λ a h. elim (ℕ_discrete a new) [
          | yes p ↦ inr (ap (build_page c s) p ∙ r.fresh)
          | no p ↦ inl (ground (arith, p, h, ap (times a) one))
        ];
        once = λ a. ground (arith, apart);
      }

  module _ (k : Keeps c) (bt : BTree S) (lsn key val : Bytes) (rp : SplitResponse) (st : BtStack)
      (lo hi : Bound) (id : ℕ) (m : Map) (ids : List ℕ) (t : LeafPage c bt.cache lo hi id m ids)
      (sound : Sound c bt.cache) (from : NotUnder lo key) (below : Under hi key)
      (some_key : 0 < length key) (some_val : 0 < length val) where
    abbrev LeafInserted : Type 0
    LeafInserted =
        (w : Wal) × (s' : S) × (rp' : SplitResponse) × (insert c bt lsn t.node key val rp st
          ≡ done (
              ok (record {
                bt = record bt { wal = w; cache = s' };
                next = 0;
                rp = rp';
                stack = st;
              })))
        × (((rp' ≡ rp) × Grows c zero bt.cache s' lo hi id (bind key val m) ids)
            ⊎ Parts c zero bt.cache s' lo hi id (bind key val m) ids rp')

    -- The leaf after `put_at`.
    module _ (i : ℕ) (f : Locates t.node.keys key i) (logged : Bytes × Wal) (n' : Node)
        (logs : log_put bt.wal lsn t.node.page_id key val ≡ done logged)
        (finds : insert_binary_search t.node.keys key 0 ≡ done i)
        (puts : put_at (record t.node { lsn = logged.0 }) i key val ≡ done n')
        (b : Binds t.node key val n') (at_id : n'.page_id ≡ id) (leaf' : n'.leaf ≡ true)
        (right' : t.node.right_sibling ≡ n'.right_sibling) where
      binds' : bind key val m ≡ lookup n'
      binds' = ap (bind key val) t.binds ∙ sym (same_map b.1)

      from' : All (NotUnder lo) n'.keys
      from' = put_bounds (NotUnder lo) t.node n' key val b t.from from

      below' : All (Under hi) n'.keys
      below' = put_bounds (Under hi) t.node n' key val b t.below below

      kind' : t.node.leaf ≡ n'.leaf
      kind' = t.is_leaf ∙ sym leaf'

      not_full : length n'.keys ≤ order → LeafInserted
      unfolding insert sync_leaf Tree
      not_full fits =
          let (s', syncs, here, step) =
            sync-Step c k bt.cache id logged.0 n' t.node sound t.stored kind' right' in
          (
            logged.1,
            s',
            rp,
            ground (
              arith,
              t.some_key,
              logs,
              finds,
              read_key t.node key t.shape i f,
              t.is_leaf,
              puts,
              fits,
              at_id,
              syncs,
            ),
            inl (
              refl,
              record {
                ids' = id ∷ [];
                tree =
                    loaded-LeafPage c s' lo hi id (bind key val m) n' here leaf' b.0
                      (keys_not_empty t.node n' key val b) fits from' below' binds';
                effect = Step-Effect bt.cache s' id ids t.one_id step;
              },
            ),
          )

      full : order < length n'.keys → LeafInserted
      unfolding insert Tree
      full overflow =
          let (h, splits, x) = split-SplitsLeaf n' logged.0 b.0 leaf' (omega (arith, overflow)) in
          let stored = ap (build_page c bt.cache) at_id ∙ t.stored in
          let (new, s', runs, r) =
            split_full_leaf-Rewritten c k bt.cache n' t.node logged.0 h sound splits stored
              (kind' ∙ sym x.left_kind) right' x.separator x.first in
          let r' : Rewritten c bt.cache s' id new (left_half h new) (right_half h n' new) =
            subst (λ a. Rewritten c bt.cache s' a new (left_half h new) (right_half h n' new)) at_id
              r in
          let step =
            Rewritten-Step c bt.cache s' id new (left_half h new) (right_half h n' new) t.node sound
              t.stored r' refl (sym right') in
          (
            logged.1,
            s',
            record { promoted_separator_key = x.separator; new_node_id = new; op_lsn = logged.0 },
            ground (
              arith,
              t.some_key,
              logs,
              finds,
              read_key t.node key t.shape i f,
              t.is_leaf,
              puts,
              overflow,
              runs,
            ),
            inr (record {
              positive = r'.positive;
              ids' = id ∷ new ∷ [];
              trees =
                  halves_Joins c s' lo hi id new (bind key val m) n' n' h x r'.left_here
                    r'.right_here leaf' b.0.sorted (omega (arith, overflow))
                    (omega (arith, b.2, t.fits)) from' below' binds';
              effect =
                  Rewritten-Effect bt.cache s' id new (left_half h new) (right_half h n' new) t.node
                    ids t.one_id t.stored step r';
            }),
          )

    -- Inserting into a leaf of a tree succeeds. It leaves a leaf in its place, or two.
    pub insert-LeafPage : LeafInserted
    insert-LeafPage =
        let n = t.node in
        let (i, e, f) = insert_binary_search-Locates n.keys key 0 t.some_key t.shape.sorted in
        let finds : insert_binary_search n.keys key 0 ≡ done i = e ∙ ap done (omega arith) in
        let (logged, logs) = log_put_runs bt.wal lsn n.page_id key val some_key some_val in
        let n₁ : Node = record n { lsn = logged.0 } in
        let shape₁ : IsLeaf n₁ = record { sorted = t.shape.sorted; paired = t.shape.paired } in
        let (n', puts, same_lsn, b) = put_at-Binds n₁ key val shape₁ i f in
        let only = put_at-OnlyCells n₁ n' i key val puts in
        let at_id = only.page_id ∙ (sound id n t.stored).own_page in
        elim (dec_lt order (length n'.keys)) [
          | yes p ↦
              full i f logged n' logs finds puts b at_id (only.leaf ∙ t.is_leaf)
                (sym only.right_sibling) p
          | no p ↦
              not_full i f logged n' logs finds puts b at_id (only.leaf ∙ t.is_leaf)
                (sym only.right_sibling) (omega (arith, p))
        ]
