-- ===== src/Tests/Whole.antt =====
-- pkg/bptree over a cache that keeps its pages in memory.
use baobab.Prelude.{
  ℕ, ◌+◌, ◌≤◌, ◌≡◌, refl, sym, subst, ◌∙◌, arith, inl, true, false, Option, none, some, List, [],
  ◌∷◌, ◌==◌, leb, if◌then◌else◌,
}
use native.Mathlib.Decide.{ℕ_discrete}
use baobab.Prelude.Run.{done}
use baobab.Prelude.Bytes.{Bytes, compare_bytes, le_u32}
use baobab.Helpers.Lsn.{ok}
use baobab.Helpers.Search.{insert_binary_search, insert_binary_search_on}
use baobab.Helpers.Slices.{insert_to_list}
use baobab.Wal.Writer.{Wal, add_put_log, assign_lsn, next_position, buffer_add}
use baobab.BPlusTree.Node.{Node, create_node, split, new_node}
use baobab.BPlusTree.Leaf.{log_put, put_at}
use baobab.BPlusTree.Search.{search, follow, follow_at}
use baobab.BPlusTree.Stack.{new_bt_stack, pop}
use baobab.BPlusTree.Leaf.Entries.{lookup}
use baobab.BPlusTree.Cache.{Cache, Keeps, Frame, MinPage, build_page, load_node, assign_frame}
use baobab.BPlusTree.Cache.Writes.{some-injective, none-not_some}
use baobab.BPlusTree.Insert.{
  BTree, insert, old_right_sibling, sync_sibling, split_full_leaf, sync_leaf,
}
use baobab.BPlusTree.Insert.Propagate.{propagate, propagate_step, add_root}
use baobab.BPlusTree.Insert.Value.{descend, insert_root, insert_one, insert_value}
use baobab.BPlusTree.Whole.{value, not_found, not_initialized, get_from, get}
use baobab.BPlusTree.Whole.Tree.{Tree, Sound, PageSound}
use baobab.BPlusTree.Whole.Reads.{got_of, get-Tree}
use baobab.BPlusTree.Whole.Root.{IsTree}
use baobab.BPlusTree.Whole.Inserts.{bind_all, insert_value-StandsFor}
use baobab.BPlusTree.Whole.Calls.{
  Call, call_insert, call_get, AreValid, run, replay_new, run-replay_new,
}

-- Pages above `top` are not there.
pub record Memory : Type 0 where
  pub top : ℕ
  pub pages : ℕ → Option Frame

abbrev pub read : Memory → ℕ → Option Frame
read s id = if leb id s.top then s.pages id else none

abbrev pub write : Memory → ℕ → Frame → Memory
write s id fr = record s { pages = λ j. if j == id then some fr else s.pages j }

abbrev pub empty_page : ℕ → MinPage
empty_page id = record {
  keys = [];
  vals = [];
  children = [];
  page_id = id;
  right_sibling = 0;
  left_sibling = 0;
}

abbrev pub new_frame : Option (List ℕ) → ℕ → Frame
new_frame children id = record {
  internal = elim children [ none ↦ false | some l ↦ true ];
  min_page = some (empty_page id);
}

abbrev pub memory : Cache Memory
memory = record {
  get = read;
  create_new_entry = λ s lsn keys vals children is_root. some (
    s.top + 1,
    write (record s { top = s.top + 1 }) (s.top + 1) (new_frame children (s.top + 1)),
  );
  sync_frame = λ s id lsn keys vals children right left. elim (read s id) [
    | none ↦ none
    | some fr ↦ some (
        write s id (record fr {
          min_page = some (record {
            keys = keys;
            vals = vals;
            children = children;
            page_id = id;
            right_sibling = right;
            left_sibling = left;
          });
        }))
  ];
  update_page_lsn = λ s id lsn. some s;
}

memory-Keeps : Keeps memory
memory-Keeps = record {
  creates = λ s lsn keys vals children is_root. (
    s.top + 1,
    write (record s { top = s.top + 1 }) (s.top + 1) (new_frame children (s.top + 1)),
    refl,
    omega arith,
    ground arith,
    (empty_page (s.top + 1), ground arith),
    λ j ne. ground (arith, ne),
  );
  syncs = λ s id fr lsn keys vals children right left h. (
    write s id (record fr {
      min_page = some (record {
        keys = keys;
        vals = vals;
        children = children;
        page_id = id;
        right_sibling = right;
        left_sibling = left;
      });
    }),
    ground (arith, h),
    ground (arith, h),
    λ j ne. ground (arith, ne),
  );
  updates_lsn = λ s id fr lsn h. (s, refl, λ j. refl);
}

abbrev pub new_wal : Wal
new_wal = record { wal_buff = []; wal_writer = record { max_page = 0; max_offset = 8 } }

abbrev no_tree : BTree Memory
no_tree = record { root = 0; wal = new_wal; cache = record { top = 0; pages = λ j. none } }

abbrev six_calls : List Call
six_calls =
    call_get (3 ∷ [])
    ∷ call_insert (3 ∷ []) (30 ∷ [])
    ∷ call_insert (1 ∷ []) (10 ∷ [])
    ∷ call_insert (2 ∷ []) (20 ∷ [])
    ∷ call_insert (5 ∷ []) (50 ∷ [])
    ∷ call_insert (4 ∷ []) (40 ∷ [])
    ∷ call_insert (4 ∷ []) (41 ∷ [])
    ∷ call_get (4 ∷ [])
    ∷ call_get (6 ∷ [])
    ∷ []

six_calls-AreValid : AreValid six_calls
six_calls-AreValid = (
  omega arith,
  omega arith,
  (
    omega arith,
    omega arith,
    (
      omega arith,
      omega arith,
      (omega arith, omega arith, (omega arith, omega arith, (omega arith, omega arith, tt))),
    ),
  ),
)

-- Five keys split the first leaf; the reads go through the new root.
six_calls_split :
    run memory 12 no_tree six_calls ≡ done (ok (not_initialized ∷ value (41 ∷ []) ∷ not_found ∷ []))
unfolding run insert_value insert_one insert_root descend insert log_put add_put_log assign_lsn
    next_position buffer_add assign_frame build_page load_node insert_binary_search
    insert_binary_search_on put_at insert_to_list split_full_leaf split create_node
    old_right_sibling sync_sibling sync_leaf propagate propagate_step pop add_root new_bt_stack get
    get_from search follow follow_at compare_bytes le_u32
six_calls_split = refl

run-replay_new_example : run memory 12 no_tree six_calls ≡ done (ok (replay_new six_calls))
unfolding build_page
run-replay_new_example =
    run-replay_new memory memory-Keeps 12 no_tree six_calls refl (λ a. ground arith)
      six_calls-AreValid (omega arith)

abbrev one_leaf : BTree Memory
one_leaf = record {
  root = 1;
  wal = new_wal;
  cache =
      write (record { top = 1; pages = λ j. none }) 1
        (record {
          internal = false;
          min_page = some (record (empty_page 1) { keys = (3 ∷ []) ∷ []; vals = (30 ∷ []) ∷ [] });
        });
}

abbrev leaf_node : Node
leaf_node = record (new_node ((3 ∷ []) ∷ []) true) { values = (30 ∷ []) ∷ []; page_id = 1 }

one_leaf-Sound : Sound memory one_leaf.cache
unfolding build_page load_node
one_leaf-Sound a n h = elim (ℕ_discrete a 1) [
  | yes p ↦
      let same : leaf_node ≡ n =
        some-injective (subst (λ b. build_page memory one_leaf.cache b ≡ some n) p h) in
      subst (PageSound memory one_leaf.cache a) same (record {
        positive = omega (arith, p);
        own_page = sym p;
        right_apart = λ e. omega (arith, e, p);
        right_there = λ q. absurd (omega (arith, q));
      })
  | no p ↦ absurd (none-not_some ((ground (arith, p)) ∙ h))
]

one_leaf-Tree : Tree memory 0 one_leaf.cache none none one_leaf.root (lookup leaf_node) (1 ∷ [])
unfolding build_page load_node Tree
one_leaf-Tree = record {
  node = leaf_node;
  stored = refl;
  is_leaf = refl;
  shape = record { sorted = (tt, tt); paired = refl };
  some_key = omega arith;
  fits = omega arith;
  from = (tt, tt);
  below = (tt, tt);
  binds = refl;
  one_id = refl;
}

get-Tree_example : get memory 2 one_leaf (3 ∷ []) ≡ done (got_of (lookup leaf_node (3 ∷ [])))
get-Tree_example =
    get-Tree memory 2 0 one_leaf (lookup leaf_node) (1 ∷ []) (3 ∷ []) one_leaf-Sound one_leaf-Tree
      (omega arith) (omega arith)

one_leaf-IsTree : IsTree memory 0 one_leaf (lookup leaf_node)
one_leaf-IsTree = record {
  sound = one_leaf-Sound;
  ids = 1 ∷ [];
  once = λ a. ground arith;
  tree = one_leaf-Tree;
}

abbrev more_keys : List Bytes
more_keys = (1 ∷ []) ∷ (2 ∷ []) ∷ (5 ∷ []) ∷ (4 ∷ []) ∷ []

abbrev more_vals : List Bytes
more_vals = (10 ∷ []) ∷ (20 ∷ []) ∷ (50 ∷ []) ∷ (40 ∷ []) ∷ []

insert_value-StandsFor_example :
    (bt' : BTree Memory) × (height' : ℕ) × (insert_value memory 6 one_leaf more_keys more_vals []
      ≡ done (ok bt'))
    × (height' ≤ 0 + 4)
    × IsTree memory height' bt' (bind_all more_keys more_vals (lookup leaf_node))
insert_value-StandsFor_example =
    insert_value-StandsFor memory memory-Keeps 6 0 one_leaf (lookup leaf_node) more_keys more_vals
      [] (inl one_leaf-IsTree) (omega arith) refl
      (omega arith, (omega arith, (omega arith, (omega arith, tt))))
      (omega arith, (omega arith, (omega arith, (omega arith, tt)))) (omega arith)
