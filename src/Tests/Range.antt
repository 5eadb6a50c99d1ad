-- ===== src/Tests/Range.antt =====
-- `RangeSearch` of pkg/bptree on two leaves under a root.
use baobab.Prelude.{
  ℕ, ◌≤◌, if◌then◌else◌, ◌==◌, true, false, Option, some, none, List, [], ◌∷◌, length,
}
use baobab.BPlusTree.Node.{Node, new_node}
use baobab.BPlusTree.Leaf.Entries.{lookup}
use baobab.BPlusTree.Cache.{Frame}
use baobab.BPlusTree.Insert.{BTree}
use baobab.BPlusTree.Whole.Tree.{Map, choose, Tree}
use baobab.BPlusTree.Whole.Range.Scan.{Chain}
use baobab.Tests.Whole.{Memory, memory, new_wal}

abbrev left_leaf : Node
left_leaf = record (new_node ((3 ∷ []) ∷ []) true) {
  values = (30 ∷ []) ∷ [];
  page_id = 1;
  right_sibling = 2;
}

abbrev right_leaf : Node
right_leaf = record (new_node ((5 ∷ []) ∷ (6 ∷ []) ∷ []) true) {
  values = (50 ∷ []) ∷ (60 ∷ []) ∷ [];
  page_id = 2;
  left_sibling = 1;
}

abbrev root_node : Node
root_node = record (new_node ((5 ∷ []) ∷ []) false) { children = 1 ∷ 2 ∷ []; page_id = 3 }

abbrev frame_of : Node → Frame
frame_of n = record {
  internal = if n.leaf then false else true;
  min_page = some (record {
    keys = n.keys;
    vals = n.values;
    children = n.children;
    page_id = n.page_id;
    right_sibling = n.right_sibling;
    left_sibling = n.left_sibling;
  });
}

abbrev page_at : ℕ → Option Frame
page_at id =
    if id == 1
    then some (frame_of left_leaf)
    else if id == 2
    then some (frame_of right_leaf)
    else if id == 3
    then some (frame_of root_node)
    else none

abbrev two_leaves : BTree Memory
two_leaves = record { root = 3; wal = new_wal; cache = record { top = 3; pages = page_at } }

abbrev both : Map
both = choose (5 ∷ []) (lookup left_leaf) (lookup right_leaf)

abbrev AtMostOne : Node → Type 0
AtMostOne n = (ns : List Node) × (length ns ≤ 1) × Chain memory two_leaves.cache ns n.right_sibling
