-- ===== src/BPlusTree/Insert.antt =====
-- pkg/bptree/bp_tree.go: `insert`, on one node. The state that a failed call leaves behind is left
-- out. Locks and debug output are left out.
pub mod Propagate
pub mod Value
use baobab.Prelude.{
  ℕ, suc, ◌+◌, leb, ltb, ◌==◌, ◌&&◌, if◌then◌else◌, Bool, true, false, Option, none, some, List, [],
  ◌∷◌, length,
}
use baobab.Prelude.Run.{Run, done, panics, stuck, ◌>>=◌, index}
use baobab.Prelude.Bytes.{Bytes}
use baobab.Helpers.Lsn.{Checked, ok, failed}
use baobab.Helpers.Search.{insert_binary_search}
use baobab.Wal.Writer.{Wal}
use baobab.BPlusTree.Node.{Node, Split, split, order}
use baobab.BPlusTree.Leaf.{put_at, log_put}
use baobab.BPlusTree.Search.{follow_at}
use baobab.BPlusTree.Stack.{TraversePath, BtStack, add}
use baobab.BPlusTree.Cache.{Cache, build_page, assign_frame, sync, or_fail, or_panic}

pub record BTree (S : Type 0) : Type 0 where
  pub root : ℕ
  pub wal : Wal
  pub cache : S

-- What a split hands to the parent; a `new_node_id` of 0 is no split.
pub record SplitResponse : Type 0 where
  pub promoted_separator_key : Bytes
  pub new_node_id : ℕ
  pub op_lsn : Bytes

-- `next` is the child to go on with, 0 for none.
pub record Inserted (S : Type 0) : Type 0 where
  pub bt : BTree S
  pub next : ℕ
  pub rp : SplitResponse
  pub stack : BtStack

-- `if err != nil { return err }` after a call of the model itself.
abbrev pub or_failed {ℓ κ} :
    {A : Type ℓ} {B : Type κ} → Run (Checked A) → (A → Run (Checked B)) → Run (Checked B)
or_failed r k = r >>= λ a. elim a [ failed ↦ done failed | ok b ↦ k b ]

module _ {S : Type 0} (c : Cache S) where
  -- Loads the right sibling of the node that is split, where there is one, with its new left pointer.
  unfoldable pub old_right_sibling : S → ℕ → ℕ → Run (Checked (Option Node))
  old_right_sibling s right_sibling new_id =
      if ltb 0 right_sibling
      then (or_fail (build_page c s right_sibling)
          λ old. done (ok (some (record old { left_sibling = new_id }))))
      else done (ok none)

  unfoldable pub sync_sibling : S → ℕ → Bytes → Option Node → Run S
  sync_sibling s id lsn none = done s
  sync_sibling s id lsn (some old) = or_panic (sync c s id lsn old) λ s'. done s'

  -- From `newRightNode, _, err := n.split(lsn)` to the end of the branch.
  unfoldable pub split_full_leaf : S → Node → Bytes → Run (Checked (S × SplitResponse))
  split_full_leaf s n lsn = split n lsn >>= λ halves.
      or_panic (assign_frame c s halves.right lsn false) λ created.
        let new_id = created.0 in
        let new_right : Node = record halves.right {
          page_id = new_id;
          left_sibling = n.page_id;
          right_sibling = n.right_sibling;
        } in
        or_failed (old_right_sibling created.1 n.right_sibling new_id) λ old.
          let left : Node = record halves.left { right_sibling = new_id } in
          index new_right.keys 0 λ separator.
            let rp : SplitResponse = record {
              promoted_separator_key = separator;
              new_node_id = new_id;
              op_lsn = lsn;
            } in
            or_panic (sync c created.1 new_id lsn new_right) λ s₂.
              or_panic (sync c s₂ n.page_id lsn left)
                λ s₃. sync_sibling s₃ n.right_sibling lsn old >>= λ s₄. done (ok (s₄, rp))

  -- The result of the last `SyncFrame` is dropped.
  unfoldable pub sync_leaf : S → Bytes → Node → S
  sync_leaf s lsn n = elim (sync c s n.page_id lsn n) [ none ↦ s | some s' ↦ s' ]

  unfoldable pub insert :
      BTree S → Bytes → Node → Bytes → Bytes → SplitResponse → BtStack → Run (Checked (Inserted S))
  insert bt lsn n key val rp stack =
      if leb (length n.keys) 0 && leb (length n.values) 0
      then (log_put bt.wal lsn n.page_id key val >>= λ logged.
          let n' : Node = record n { keys = key ∷ []; values = val ∷ []; lsn = logged.0 } in
          or_fail (sync c bt.cache n.page_id logged.0 n') λ s. done (
            ok (record {
              bt = record bt { wal = logged.1; cache = s };
              next = 0;
              rp = rp;
              stack = stack;
            })))
      else (insert_binary_search n.keys key 0 >>= λ idx. index n.keys idx λ _.
          if n.leaf
          then (log_put bt.wal lsn n.page_id key val >>= λ logged.
              put_at (record n { lsn = logged.0 }) idx key val >>= λ n'.
              if ltb order (length n'.keys)
              then (or_failed (split_full_leaf bt.cache n' logged.0) λ out. done (
                  ok (record {
                    bt = record bt { wal = logged.1; cache = out.0 };
                    next = 0;
                    rp = out.1;
                    stack = stack;
                  })))
              else done (
                  ok (record {
                    bt = record bt { wal = logged.1; cache = sync_leaf bt.cache logged.0 n' };
                    next = 0;
                    rp = rp;
                    stack = stack;
                  })))
          else (follow_at n key idx >>= λ step. done (
              ok (record {
                bt = bt;
                next = step.0;
                rp = rp;
                stack = add stack (record { n = n; idx = step.1 });
              }))))
