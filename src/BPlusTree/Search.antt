-- ===== src/BPlusTree/Search.antt =====
-- pkg/bptree/bp_tree.go: `search` and `rangeSearch` in one node, and the child that they,
-- `insert` and `deleteValue` follow.
pub mod Follow
pub mod Answers
pub mod Ranges
use baobab.Prelude.{
  ℕ, suc, ◌+◌, Bool, leb, ◌&&◌, ◌||◌, if◌then◌else◌, List, [], ◌∷◌, length, drop, Option, some,
  none,
}
use baobab.Prelude.Run.{Run, done, panics, stuck, ◌>>=◌, index, slice_from}
use baobab.Prelude.Bytes.{Bytes, less, same, greater, compare_bytes}
use baobab.Helpers.Search.{insert_binary_search}
use baobab.BPlusTree.Node.{Node}

-- The child to go on with, and its index, from the index that the search gave.
unfoldable pub follow_at : Node → Bytes → ℕ → Run (ℕ × ℕ)
follow_at n key idx = index n.keys idx λ k_at_idx. elim (compare_bytes key k_at_idx) [
  | less ↦ index n.children idx λ child. done (child, idx)
  | same ↦ index n.children (idx + 1) λ child. done (child, idx + 1)
  | greater ↦ index n.children (idx + 1) λ child. done (child, idx + 1)
]

unfoldable pub follow : Node → Bytes → Run (ℕ × ℕ)
unfolding follow_at
follow n key = insert_binary_search n.keys key 0 >>= λ idx. follow_at n key idx

-- What `search` says: the value, the error "Key not found", or the next node's id.
pub data Answer : Type 0 where
  found : Bytes → Answer
  key_not_found : Answer
  next_node : ℕ → Answer

abbrev answer_at : Node → Bytes → ℕ → Run Answer
answer_at n key idx = index n.keys idx λ k. elim (compare_bytes key k) [
  | same ↦ index n.values idx λ v. done (found v)
  | less ↦ done key_not_found
  | greater ↦ done key_not_found
]

-- `panic("Invalid node")` on a node with no keys or with neither values nor children.
abbrev is_invalid : Node → Bool
is_invalid n = leb (length n.keys) 0 || (leb (length n.values) 0 && leb (length n.children) 0)

unfoldable pub search : Node → Bytes → Run Answer
unfolding follow
search n key =
    if is_invalid n
    then panics
    else if n.leaf
    then (insert_binary_search n.keys key 0 >>= λ idx. answer_at n key idx)
    else (follow n key >>= λ step. done (next_node step.0))

-- A pair of a leaf, as `rangeSearch` returns it.
pub record RangeItem : Type 0 where
  pub key : Bytes
  pub val : Bytes

-- `for i, k := range n.Keys[idx:]` over the keys and values from `idx` on.
pub items_from : List Bytes → List Bytes → Run (List RangeItem)
items_from [] vals = done []
items_from (k ∷ ks) [] = panics
items_from (k ∷ ks) (v ∷ vs) =
    items_from ks vs >>= λ rest. done (record { key = k; val = v } ∷ rest)

-- What `rangeSearch` says: no items for an empty node, the items from the key on and the right
-- sibling, the error "Key not found", or the next node's id.
pub data RangeAnswer : Type 0 where
  no_items : RangeAnswer
  items : List RangeItem → ℕ → RangeAnswer
  range_key_not_found : RangeAnswer
  range_next_node : ℕ → RangeAnswer

abbrev range_at : Node → Bytes → ℕ → Run RangeAnswer
range_at n key idx = index n.keys idx λ k. elim (compare_bytes key k) [
  | same ↦
      slice_from n.values idx
        λ temp_vals. items_from (drop idx n.keys) temp_vals >>= λ l. done (items l n.right_sibling)
  | less ↦ done range_key_not_found
  | greater ↦ done range_key_not_found
]

unfoldable pub range_search : Node → Bytes → Run RangeAnswer
unfolding follow items_from
range_search n key =
    if is_invalid n
    then done no_items
    else if n.leaf
    then (insert_binary_search n.keys key 0 >>= λ idx. range_at n key idx)
    else (follow n key >>= λ step. done (range_next_node step.0))
