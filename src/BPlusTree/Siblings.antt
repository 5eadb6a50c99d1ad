-- ===== src/BPlusTree/Siblings.antt =====
-- pkg/bptree/bp_tree.go: what `handleLeafUnderflow` does with a leaf and the sibling it chose. The syncs
-- of the pages with their panics, and the reading of the third leaf, are left out.
pub mod Leaves
use baobab.Prelude.{
  ℕ, suc, ◌+◌, ◌/◌, leb, ltb, if◌then◌else◌, Bool, true, false, List, [], ◌∷◌, ◌++◌, length, take,
  drop, Option, some, none,
}
use baobab.Prelude.Run.{Run, done, index}
use baobab.Prelude.Bytes.{Bytes}
use baobab.BPlusTree.Node.{Node, order}

-- Where a leaf that underflowed looks for keys: the right sibling first.
pub data Choice : Type 0 where
  right_sibling_of : ℕ → Choice
  left_sibling_of : ℕ → Choice
  no_sibling : Choice

unfoldable pub choose_sibling : Node → Choice
choose_sibling n =
    if ltb 0 n.right_sibling
    then right_sibling_of n.right_sibling
    else if ltb 0 n.left_sibling
    then left_sibling_of n.left_sibling
    else no_sibling

-- The node and its sibling afterwards. `rebalance_key` is set by a redistribution; after a merge
-- the node is dead. `relink` is the third leaf, whose pointer to the dead one is set to `target`.
pub record Balanced : Type 0 where
  pub node : Node
  pub sibling : Node
  pub merged : Bool
  pub rebalance_key : Option Bytes
  pub relink : Option ℕ
  pub target : ℕ

abbrev redistribute_right : Node → Node → Run Balanced
redistribute_right n sib =
    let tot_keys = n.keys ++ sib.keys in
    let tot_vals = n.values ++ sib.values in
    let mid = length tot_keys / 2 in
    index (drop mid tot_keys) 0 λ k. done (record {
      node = record n { keys = take mid tot_keys; values = take mid tot_vals };
      sibling = record sib { keys = drop mid tot_keys; values = drop mid tot_vals };
      merged = false;
      rebalance_key = some k;
      relink = none;
      target = 0;
    })

abbrev redistribute_left : Node → Node → Run Balanced
redistribute_left n sib =
    let tot_keys = sib.keys ++ n.keys in
    let tot_vals = sib.values ++ n.values in
    let mid = length tot_keys / 2 in
    index (drop mid tot_keys) 0 λ k. done (record {
      node = record n { keys = drop mid tot_keys; values = drop mid tot_vals };
      sibling = record sib { keys = take mid tot_keys; values = take mid tot_vals };
      merged = false;
      rebalance_key = some k;
      relink = none;
      target = 0;
    })

-- The sibling's own pointer changes only where there is a third leaf.
abbrev merge_right : Node → Node → Balanced
merge_right n sib =
    let has_left = ltb 0 n.left_sibling in
    record {
      node = n;
      sibling = record sib {
        keys = n.keys ++ sib.keys;
        values = n.values ++ sib.values;
        left_sibling = if has_left then n.left_sibling else sib.left_sibling;
      };
      merged = true;
      rebalance_key = none;
      relink = if has_left then some n.left_sibling else none;
      target = n.right_sibling;
    }

abbrev merge_left : Node → Node → Balanced
merge_left n sib =
    let has_right = ltb 0 n.right_sibling in
    record {
      node = n;
      sibling = record sib {
        keys = sib.keys ++ n.keys;
        values = sib.values ++ n.values;
        right_sibling = if has_right then n.right_sibling else sib.right_sibling;
      };
      merged = true;
      rebalance_key = none;
      relink = if has_right then some n.right_sibling else none;
      target = n.left_sibling;
    }

-- `right_merge` says on which side the sibling stands.
unfoldable pub balance_leaves : Node → Node → Bool → Run Balanced
balance_leaves n sib right_merge =
    if leb order (length n.keys + length sib.keys)
    then (if right_merge then redistribute_right n sib else redistribute_left n sib)
    else (if right_merge then done (merge_right n sib) else done (merge_left n sib))
