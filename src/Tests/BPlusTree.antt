-- ===== src/Tests/BPlusTree.antt =====
-- pkg/bptree.
use baobab.Prelude.{ℕ, ◌≡◌, refl, arith, true, false, [], ◌∷◌}
use baobab.Prelude.Bytes.{compare_bytes}
use baobab.Prelude.Run.{done}
use baobab.BPlusTree.Node.{Node, Split, split, new_node}
use baobab.BPlusTree.Node.Halves.{
  SplitsLeaf, SplitsInternal, split-SplitsLeaf, split-SplitsInternal,
}
use baobab.Wal.Writer.{Wal}
use baobab.BPlusTree.Leaf.{remove}
use baobab.BPlusTree.Leaf.Entries.{IsLeaf, lookup}
use baobab.BPlusTree.Leaf.Put.{Puts, put-Binds}
use baobab.BPlusTree.Leaf.Remove.{Removes, remove-Unbinds}
use baobab.BPlusTree.Search.{follow, search, range_search}
use baobab.BPlusTree.Search.Follow.{IsInternal, Routes, follow-Routes}
use baobab.BPlusTree.Search.Answers.{answer_of, search-lookup}
use baobab.BPlusTree.Search.Ranges.{range_answer_of, range_search-lookup}
use baobab.BPlusTree.Siblings.{Balanced, balance_leaves}
use baobab.BPlusTree.Siblings.Leaves.{AreNeighbours, Balances, balance_leaves-Balances}
use baobab.BPlusTree.Stack.{TraversePath, new_bt_stack}
use baobab.BPlusTree.Stack.Refines.{call_add, call_pop, run, run_plain, run-new_bt_stack}

abbrev leaf : Node
leaf = record (new_node ((1 ∷ []) ∷ (3 ∷ []) ∷ (5 ∷ []) ∷ []) true) {
  values = (10 ∷ []) ∷ (30 ∷ []) ∷ (50 ∷ []) ∷ [];
  page_id = 4;
}

abbrev next_leaf : Node
next_leaf = record (new_node ((7 ∷ []) ∷ []) true) {
  values = (70 ∷ []) ∷ [];
  page_id = 5;
  left_sibling = 4;
}

abbrev short_leaf : Node
short_leaf = record (new_node ((1 ∷ []) ∷ []) true) {
  values = (10 ∷ []) ∷ [];
  page_id = 4;
  right_sibling = 5;
}

abbrev internal : Node
internal = record (new_node ((1 ∷ []) ∷ (3 ∷ []) ∷ (5 ∷ []) ∷ []) false) {
  children = 11 ∷ 12 ∷ 13 ∷ 14 ∷ [];
}

leaf-IsLeaf : IsLeaf leaf
unfolding compare_bytes
leaf-IsLeaf = record { sorted = ((refl, (refl, tt)), ((refl, tt), (tt, tt))); paired = refl }

internal-IsInternal : IsInternal internal
unfolding compare_bytes
internal-IsInternal = record {
  sorted = ((refl, (refl, tt)), ((refl, tt), (tt, tt)));
  some_key = omega arith;
  one_more = refl;
}

are_neighbours : AreNeighbours leaf next_leaf
unfolding compare_bytes
are_neighbours = record {
  left_leaf = leaf-IsLeaf;
  right_leaf = record { sorted = (tt, tt); paired = refl };
  ascending = ((refl, (refl, (refl, tt))), ((refl, (refl, tt)), ((refl, tt), (tt, tt))));
}

abbrev new_log : Wal
new_log = record { wal_buff = []; wal_writer = record { max_page = 0; max_offset = 25 } }

put-Binds_example : Puts new_log [] leaf (4 ∷ []) (40 ∷ [])
put-Binds_example = put-Binds new_log [] leaf (4 ∷ []) (40 ∷ []) leaf-IsLeaf

remove-Unbinds_example : Removes new_log [] leaf (3 ∷ []) (remove new_log [] leaf (3 ∷ []))
remove-Unbinds_example = remove-Unbinds new_log [] leaf (3 ∷ []) leaf-IsLeaf

search-lookup_example : search leaf (5 ∷ []) ≡ done (answer_of (lookup leaf (5 ∷ [])))
search-lookup_example = search-lookup leaf (5 ∷ []) leaf-IsLeaf refl (omega arith)

range_search-lookup_example :
    range_search leaf (3 ∷ []) ≡ done (range_answer_of leaf (3 ∷ []) (lookup leaf (3 ∷ [])))
range_search-lookup_example = range_search-lookup leaf (3 ∷ []) leaf-IsLeaf refl (omega arith)

follow-Routes_example :
    (step : ℕ × ℕ) × (follow internal (4 ∷ []) ≡ done step) × Routes internal (4 ∷ []) step
follow-Routes_example = follow-Routes internal (4 ∷ []) internal-IsInternal

split-SplitsLeaf_example : (s : Split) × (split leaf (9 ∷ []) ≡ done s) × SplitsLeaf leaf s
split-SplitsLeaf_example = split-SplitsLeaf leaf (9 ∷ []) leaf-IsLeaf refl (omega arith)

split-SplitsInternal_example :
    (s : Split) × (split internal (9 ∷ []) ≡ done s) × SplitsInternal internal s
split-SplitsInternal_example =
    split-SplitsInternal internal (9 ∷ []) internal-IsInternal refl (omega arith)

balance_leaves-Balances_example :
    (b : Balanced) × (balance_leaves leaf next_leaf true ≡ done b) × Balances leaf next_leaf true b
balance_leaves-Balances_example = balance_leaves-Balances leaf next_leaf true are_neighbours

abbrev step : TraversePath
step = record { n = internal; idx = 2 }

run-new_bt_stack_example :
    run (new_bt_stack 1) (call_add step ∷ call_pop ∷ call_pop ∷ [])
    ≡ run_plain [] (call_add step ∷ call_pop ∷ call_pop ∷ [])
run-new_bt_stack_example = run-new_bt_stack 1 (call_add step ∷ call_pop ∷ call_pop ∷ [])
