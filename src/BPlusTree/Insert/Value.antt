-- ===== src/BPlusTree/Insert/Value.antt =====
-- pkg/bptree/bp_tree.go: `InsertValue`. The stack is local to it and is dropped after each key. Frames have
-- no pins here, so `ReleaseFrame` with its errors is left out.
use baobab.Prelude.{ℕ, zero, suc, ◌==◌, if◌then◌else◌, true, false, List, [], ◌∷◌}
use baobab.Prelude.Run.{Run, done, panics, stuck, ◌>>=◌}
use baobab.Prelude.Bytes.{Bytes}
use baobab.Helpers.Lsn.{Checked, ok}
use baobab.BPlusTree.Node.{Node, new_node}
use baobab.BPlusTree.Stack.{new_bt_stack}
use baobab.BPlusTree.Cache.{Cache, build_page, assign_frame, sync, or_fail, or_panic}
use baobab.BPlusTree.Insert.{BTree, SplitResponse, or_failed, insert}
use baobab.BPlusTree.Leaf.{log_put}
use baobab.BPlusTree.Insert.Propagate.{Propagating, propagate}

module _ {S : Type 0} (c : Cache S) where
  -- `for nodePageId != 0`
  unfoldable pub descend :
      ℕ → Bytes → Bytes → Bytes → ℕ → Propagating S → Run (Checked (Propagating S))
  descend zero lsn key val node_page_id p = stuck
  descend (suc fuel) lsn key val node_page_id p = elim (node_page_id == 0) [
    | true ↦ done (ok p)
    | false ↦ or_fail (build_page c p.bt.cache node_page_id) λ node.
        or_failed (insert c p.bt lsn node key val p.rp p.stack)
          λ r. descend fuel lsn key val r.next (record { bt = r.bt; rp = r.rp; stack = r.stack })
  ]

  -- A first root: the LSN that it takes from the log is the caller's variable from then on.
  unfoldable pub insert_root : BTree S → Bytes → Bytes → Bytes → Run (Checked (BTree S × Bytes))
  insert_root bt lsn key val =
      let root_node : Node = record (new_node (key ∷ []) true) { values = val ∷ [] } in
      or_fail (assign_frame c bt.cache root_node [] true) λ created.
        log_put bt.wal lsn created.0 key val >>= λ logged.
        or_panic (c.update_page_lsn created.1 created.0 logged.0) λ s₂.
          or_panic (sync c s₂ created.0 logged.0 root_node)
            λ s₃. done (ok (record bt { root = created.0; wal = logged.1; cache = s₃ }, logged.0))

  -- One turn of the loop over the keys, with the LSN for the next.
  unfoldable pub insert_one : ℕ → BTree S → Bytes → Bytes → Bytes → Run (Checked (BTree S × Bytes))
  insert_one fuel bt lsn key val =
      if bt.root == 0
      then insert_root bt lsn key val
      else (let no_split : SplitResponse = record {
        promoted_separator_key = [];
        new_node_id = 0;
        op_lsn = [];
      } in
          let start : Propagating S = record {
            bt = bt;
            rp = no_split;
            stack = new_bt_stack bt.root;
          } in
          or_failed (descend fuel lsn key val bt.root start)
            λ p. or_failed (propagate c fuel p) λ p'. done (ok (p'.bt, lsn)))

  unfoldable pub insert_value :
      ℕ → BTree S → List Bytes → List Bytes → Bytes → Run (Checked (BTree S))
  insert_value fuel bt [] vals lsn = done (ok bt)
  insert_value fuel bt (key ∷ keys) [] lsn = panics
  insert_value fuel bt (key ∷ keys) (val ∷ vals) lsn =
      or_failed (insert_one fuel bt lsn key val) λ out. insert_value fuel out.0 keys vals out.1
