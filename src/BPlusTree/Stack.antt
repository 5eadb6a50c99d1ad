-- ===== src/BPlusTree/Stack.antt =====
-- pkg/bptree/btstack.go: the path from the root, kept in a map under ids that count up from 1.
pub mod Refines
use baobab.Prelude.{
  ℕ, suc, ◌+◌, ◌-◌, leb, ltb, ◌==◌, ◌||◌, if◌then◌else◌, Bool, true, false, Option, none, some,
}
use baobab.BPlusTree.Node.{Node}

-- A node on the path and the index of the child that was followed.
pub record TraversePath : Type 0 where
  pub n : Node
  pub idx : ℕ

-- The map is a function; `delete` of a key is an update to `none`.
pub record BtStack : Type 0 where
  pub count : ℕ
  pub stack : ℕ → Option TraversePath
  pub max_id : ℕ
  pub root : ℕ

abbrev pub update : (ℕ → Option TraversePath) → ℕ → Option TraversePath → ℕ → Option TraversePath
update m k v j = if j == k then v else m j

unfoldable pub new_bt_stack : ℕ → BtStack
new_bt_stack root = record { count = 0; stack = λ _. none; max_id = 0; root = root }

unfoldable pub add : BtStack → TraversePath → BtStack
add bt n =
    let new_key = bt.max_id + 1 in
    record bt {
      stack = update bt.stack new_key (some n);
      max_id = bt.max_id + 1;
      count = bt.count + 1;
    }

-- `none` is the error "No items in stack", which leaves the stack as it was.
unfoldable pub pop : BtStack → Option TraversePath × BtStack
pop bt = if leb bt.count 0 || bt.max_id == 0 then (none, bt) else elim (bt.stack bt.max_id) [
  | none ↦ (none, bt)
  | some v ↦ (
    some v,
    record bt {
      stack = update bt.stack bt.max_id none;
      count = if ltb 0 bt.count then bt.count - 1 else bt.count;
      max_id = bt.max_id - 1;
    },
  )
]

unfoldable pub parent : BtStack → Option TraversePath
parent bt = if leb bt.count 0 || bt.max_id == 0 then none else bt.stack bt.max_id

-- All entries but one under the id 0 go.
unfoldable pub clear : BtStack → BtStack
clear bt =
    if leb bt.count 0
    then bt
    else record bt { stack = λ k. if k == 0 then bt.stack k else none; count = 0; max_id = 0 }
