-- ===== src/BPlusTree/Insert/Propagate.antt =====
-- pkg/bptree/bp_tree.go: how `InsertValue` propagates a split: `for insertRes.NewNodeId != 0`.
use baobab.Prelude.{
  ℕ, zero, suc, ◌+◌, ◌-◌, ltb, ◌==◌, if◌then◌else◌, true, false, Option, none, some, [], ◌∷◌,
  length,
}
use baobab.Prelude.Run.{Run, done, stuck, ◌>>=◌}
use baobab.Prelude.Bytes.{Bytes}
use baobab.Helpers.Lsn.{Checked, ok}
use baobab.Helpers.Slices.{insert_to_list}
use baobab.BPlusTree.Node.{Node, create_node, split, order}
use baobab.BPlusTree.Stack.{TraversePath, BtStack, pop}
use baobab.BPlusTree.Cache.{Cache, assign_frame, sync, or_fail, or_panic}
use baobab.BPlusTree.Insert.{BTree, SplitResponse, or_failed, old_right_sibling, sync_sibling}

-- The loop's state.
pub record Propagating (S : Type 0) : Type 0 where
  pub bt : BTree S
  pub rp : SplitResponse
  pub stack : BtStack

abbrev or_empty : Option Bytes → Bytes
or_empty none = []
or_empty (some k) = k

-- The parent takes the separator at the index that was followed and the new child behind it.
abbrev pub with_child : TraversePath → SplitResponse → Node
with_child parent rp = record parent.n {
  keys = insert_to_list parent.n.keys parent.idx rp.promoted_separator_key;
  children = insert_to_list parent.n.children (parent.idx + 1) rp.new_node_id;
}

module _ {S : Type 0} (c : Cache S) where
  -- The overflow of an internal node: the parent's left half, and what goes further up.
  unfoldable pub split_full_internal : S → Node → Bytes → Run (Checked (S × (Node × SplitResponse)))
  split_full_internal s n lsn = split n lsn >>= λ halves.
      or_fail (assign_frame c s halves.right lsn false) λ created.
        let new_id = created.0 in
        let new_right : Node = record halves.right {
          page_id = new_id;
          left_sibling = n.page_id;
          right_sibling = n.right_sibling;
        } in
        or_failed (old_right_sibling c created.1 n.right_sibling new_id) λ old.
          sync_sibling c created.1 n.right_sibling lsn old >>= λ s₂.
          let left : Node = record halves.left { right_sibling = new_id } in
          let rp : SplitResponse = record {
            promoted_separator_key = or_empty halves.promoted;
            new_node_id = new_id;
            op_lsn = lsn;
          } in
          or_panic (sync c s₂ new_id lsn new_right) λ s₃. done (ok (s₃, (left, rp)))

  unfoldable pub update_parent :
      S → TraversePath → SplitResponse → Run (Checked (S × SplitResponse))
  update_parent s parent rp = or_fail (c.get s parent.n.page_id) λ _.
      let n = with_child parent rp in
      if ltb (order - 1) (length n.keys)
      then (or_failed (split_full_internal s n rp.op_lsn) λ out.
          or_panic (sync c out.0 n.page_id out.1.1.op_lsn out.1.0) λ s'. done (ok (s', out.1.1)))
      else (or_panic (sync c s n.page_id rp.op_lsn n)
          λ s'. done (ok (s', record rp { promoted_separator_key = []; new_node_id = 0 })))

  -- With no parent left: a new root over the old one and the new node.
  unfoldable pub add_root : BTree S → SplitResponse → Run (Checked (BTree S))
  add_root bt rp = or_fail (create_node (rp.promoted_separator_key ∷ []) false true) λ new_root.
      let root_node : Node = record new_root { children = bt.root ∷ rp.new_node_id ∷ [] } in
      or_panic (assign_frame c bt.cache root_node rp.op_lsn true) λ created.
        or_panic (sync c created.1 created.0 rp.op_lsn (record root_node { page_id = created.0 }))
          λ s. done (ok (record bt { root = created.0; cache = s }))

  unfoldable pub propagate_step : Propagating S → Run (Checked (Propagating S))
  propagate_step p =
      if ltb 0 p.stack.count
      then (let (parent, stack) = pop p.stack in
          or_fail parent λ path. or_failed (update_parent p.bt.cache path p.rp) λ out.
            done (ok (record { bt = record p.bt { cache = out.0 }; rp = out.1; stack = stack })))
      else (or_failed (add_root p.bt p.rp) λ bt.
          done (ok (record { bt = bt; rp = record p.rp { new_node_id = 0 }; stack = p.stack })))

  unfoldable pub propagate : ℕ → Propagating S → Run (Checked (Propagating S))
  propagate zero p = stuck
  propagate (suc fuel) p = elim (p.rp.new_node_id == 0) [
    | true ↦ done (ok p)
    | false ↦ or_failed (propagate_step p) λ p'. propagate fuel p'
  ]
