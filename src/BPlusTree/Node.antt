-- ===== src/BPlusTree/Node.antt =====
-- pkg/bptree/bp_tree.go: the node, `createNode` and `split`.
pub mod Halves
use baobab.Prelude.{
  ℕ, suc, ◌+◌, ◌-◌, ◌*◌, ◌/◌, Bool, true, false, not, ◌&&◌, ltb, if◌then◌else◌, Option, none, some,
  List, [], length, take, drop, replicate,
}
use baobab.Prelude.Run.{Run, done, panics, index, slice_from}
use baobab.Prelude.Bytes.{Bytes}

abbrev pub degree : ℕ
degree = 2

abbrev pub order : ℕ
order = degree * 2

-- Page ids are positive numbers below 2 ^ 31, on which the source's int32 and uint32 agree; 0 is
-- no page. The mutex is left out.
pub record Node : Type 0 where
  pub keys : List Bytes
  pub children : List ℕ
  pub leaf : Bool
  pub values : List Bytes
  pub left_sibling : ℕ
  pub right_sibling : ℕ
  pub page_id : ℕ
  pub lsn : Bytes

-- The fields that `createNode` sets, and Go's zero values for the rest.
abbrev pub new_node : List Bytes → Bool → Node
new_node separator_keys is_leaf = record {
  keys = separator_keys;
  children = [];
  leaf = is_leaf;
  values = if is_leaf then replicate (2 * degree) [] else [];
  left_sibling = 0;
  right_sibling = 0;
  page_id = 0;
  lsn = [];
}

-- `none` is the error on the number of keys.
unfoldable pub create_node : List Bytes → Bool → Bool → Option Node
create_node separator_keys is_leaf is_root =
    let n = length separator_keys in
    if not is_leaf && (ltb n (degree - 1) && ltb (order - 1) n)
    then none
    else if is_leaf && (ltb n degree && ltb order n)
    then none
    else some (new_node separator_keys is_leaf)

-- What `split` leaves in the node, the new right node, and the promoted key of an internal node.
pub record Split : Type 0 where
  pub left : Node
  pub right : Node
  pub promoted : Option Bytes

abbrev split_leaf : Node → Bytes → Run Split
split_leaf n lsn =
    let mid = length n.keys / 2 in
    slice_from n.keys mid λ right_keys. slice_from n.values mid λ right_vals.
      elim (create_node right_keys true false) [
        | none ↦ panics
        | some right_node ↦ done (record {
          left = record n { keys = take mid n.keys; values = take mid n.values };
          right = record right_node { values = right_vals; lsn = lsn };
          promoted = none;
        })
      ]

abbrev split_internal : Node → Bytes → Run Split
split_internal n lsn =
    let mid = length n.keys / 2 in
    index n.keys mid λ promoted_key. slice_from n.keys (suc mid) λ right_keys.
      slice_from n.children (suc mid) λ right_children. elim (create_node right_keys false false) [
        | none ↦ panics
        | some right_node ↦ done (record {
          left = record n { keys = take mid n.keys; children = take (suc mid) n.children };
          right = record right_node { children = right_children; lsn = lsn };
          promoted = some promoted_key;
        })
      ]

unfoldable pub split : Node → Bytes → Run Split
unfolding create_node
split n lsn = if n.leaf then split_leaf n lsn else split_internal n lsn
