-- ===== src/BPlusTree/Stack/Refines.antt =====
-- The map with counted ids is a stack.
use baobab.Prelude.{
  ℕ, suc, ◌+◌, ◌-◌, ◌<◌, ◌≡◌, refl, ap, ap₂, arith, List, [], ◌∷◌, length, Option, none, some, ◌==◌,
  if◌then◌else◌,
}
use baobab.BPlusTree.Stack.{TraversePath, BtStack, update, new_bt_stack, add, pop, parent, clear}

-- The ids `length l`, ..., 1 hold the entries of `l`, the last one added first.
abbrev pub Holds : (ℕ → Option TraversePath) → List TraversePath → Type 0
Holds m [] = Unit
Holds m (x ∷ l) = (m (suc (length l)) ≡ some x) × Holds m l

pub record Represents (bt : BtStack) (l : List TraversePath) : Type 0 where
  pub counted : bt.count ≡ length l
  pub top_id : bt.max_id ≡ length l
  pub entries : Holds bt.stack l
  pub nothing_above : (k : ℕ) → length l < k → bt.stack k ≡ none
  pub nothing_at_zero : bt.stack 0 ≡ none

Holds-update :
    (m : ℕ → Option TraversePath) (k : ℕ) (v : Option TraversePath) (l : List TraversePath)
    → length l < k
    → Holds m l
    → Holds (update m k v) l
Holds-update m k v [] h hl = tt
Holds-update m k v (x ∷ l) h hl = (ground (arith, hl.0), Holds-update m k v l (omega arith) hl.1)

pub new_bt_stack-Represents : (root : ℕ) → Represents (new_bt_stack root) []
unfolding new_bt_stack
new_bt_stack-Represents root = record {
  counted = refl;
  top_id = refl;
  entries = tt;
  nothing_above = λ k h. refl;
  nothing_at_zero = refl;
}

module _ (bt : BtStack) where
  pub add-Represents :
      (x : TraversePath) (l : List TraversePath) → Represents bt l → Represents (add bt x) (x ∷ l)
  unfolding add
  add-Represents x l r = record {
    counted = omega (arith, r.counted);
    top_id = omega (arith, r.top_id);
    entries = (
      ground (arith, r.top_id),
      Holds-update bt.stack (bt.max_id + 1) (some x) l (omega (arith, r.top_id)) r.entries,
    );
    nothing_above = λ k h. ground (arith, r.top_id, r.nothing_above k);
    nothing_at_zero = ground (arith, r.nothing_at_zero);
  }

  parent-empty : Represents bt [] → parent bt ≡ none
  unfolding parent
  parent-empty r = ground (arith, r.counted)

  parent-cons :
      (x : TraversePath) (l : List TraversePath) → Represents bt (x ∷ l) → parent bt ≡ some x
  unfolding parent
  parent-cons x l r = ground (arith, r.counted, r.top_id, r.entries.0)

  pop-empty : Represents bt [] → pop bt ≡ (none, bt)
  unfolding pop
  pop-empty r = ground (arith, r.counted)

  pub popped : BtStack
  popped = record bt {
    stack = update bt.stack bt.max_id none;
    count = bt.count - 1;
    max_id = bt.max_id - 1;
  }

  pub pop-cons :
      (x : TraversePath) (l : List TraversePath) → Represents bt (x ∷ l) → pop bt ≡ (some x, popped)
  unfolding pop popped
  pop-cons x l r = ground (arith, r.counted, r.top_id, r.entries.0)

  pub popped-Represents :
      (x : TraversePath) (l : List TraversePath) → Represents bt (x ∷ l) → Represents popped l
  unfolding popped
  popped-Represents x l r = record {
    counted = omega (arith, r.counted);
    top_id = omega (arith, r.top_id);
    entries = Holds-update bt.stack bt.max_id none l (omega (arith, r.top_id)) r.entries.1;
    nothing_above = λ k h. ground (arith, r.top_id, r.nothing_above k);
    nothing_at_zero = ground (arith, r.nothing_at_zero, r.top_id);
  }

  cleared : BtStack
  cleared = record bt { stack = λ k. if k == 0 then bt.stack k else none; count = 0; max_id = 0 }

  clear-cleared :
      (x : TraversePath) (l : List TraversePath) → Represents bt (x ∷ l) → clear bt ≡ cleared
  unfolding clear cleared
  clear-cleared x l r = ground (arith, r.counted)

  cleared-Represents : bt.stack 0 ≡ none → Represents cleared []
  unfolding cleared
  cleared-Represents h = record {
    counted = refl;
    top_id = refl;
    entries = tt;
    nothing_above = λ k p. ground arith;
    nothing_at_zero = h;
  }

  clear-empty : Represents bt [] → clear bt ≡ bt
  unfolding clear
  clear-empty r = ground (arith, r.counted)

  clear-Represents : (l : List TraversePath) → Represents bt l → Represents (clear bt) []
  clear-Represents [] r = rw (clear-empty r) r
  clear-Represents (x ∷ l) r = rw (clear-cleared x l r) (cleared-Represents r.nothing_at_zero)

-- The calls that the tree makes, and what each returns.
pub data Call : Type 0 where
  call_add : TraversePath → Call
  call_pop : Call
  call_parent : Call
  call_clear : Call

pub run : BtStack → List Call → List (Option TraversePath)
run bt [] = []
run bt (call_add x ∷ calls) = none ∷ run (add bt x) calls
run bt (call_pop ∷ calls) = (pop bt).0 ∷ run (pop bt).1 calls
run bt (call_parent ∷ calls) = parent bt ∷ run bt calls
run bt (call_clear ∷ calls) = none ∷ run (clear bt) calls

-- The same calls on a plain stack.
pub run_plain : List TraversePath → List Call → List (Option TraversePath)
run_plain l [] = []
run_plain l (call_add x ∷ calls) = none ∷ run_plain (x ∷ l) calls
run_plain [] (call_pop ∷ calls) = none ∷ run_plain [] calls
run_plain (x ∷ l) (call_pop ∷ calls) = some x ∷ run_plain l calls
run_plain [] (call_parent ∷ calls) = none ∷ run_plain [] calls
run_plain (x ∷ l) (call_parent ∷ calls) = some x ∷ run_plain (x ∷ l) calls
run_plain l (call_clear ∷ calls) = none ∷ run_plain [] calls

run-run_plain :
    (bt : BtStack) (l : List TraversePath) (calls : List Call)
    → Represents bt l
    → run bt calls ≡ run_plain l calls
unfolding run run_plain
run-run_plain bt [] [] r = refl
run-run_plain bt (y ∷ l) [] r = refl
run-run_plain bt [] (call_add x ∷ calls) r =
    ap (λ o. none ∷ o) (run-run_plain (add bt x) (x ∷ []) calls (add-Represents bt x [] r))
run-run_plain bt (y ∷ l) (call_add x ∷ calls) r =
    ap (λ o. none ∷ o) (run-run_plain (add bt x) (x ∷ y ∷ l) calls (add-Represents bt x (y ∷ l) r))
run-run_plain bt [] (call_pop ∷ calls) r =
    rw (pop-empty bt r) (ap (λ o. none ∷ o) (run-run_plain bt [] calls r))
run-run_plain bt (x ∷ l) (call_pop ∷ calls) r =
    rw (pop-cons bt x l r)
      (ap (λ o. some x ∷ o) (run-run_plain (popped bt) l calls (popped-Represents bt x l r)))
run-run_plain bt [] (call_parent ∷ calls) r =
    ap₂ (λ a o. a ∷ o) (parent-empty bt r) (run-run_plain bt [] calls r)
run-run_plain bt (x ∷ l) (call_parent ∷ calls) r =
    ap₂ (λ a o. a ∷ o) (parent-cons bt x l r) (run-run_plain bt (x ∷ l) calls r)
run-run_plain bt [] (call_clear ∷ calls) r =
    ap (λ o. none ∷ o) (run-run_plain (clear bt) [] calls (clear-Represents bt [] r))
run-run_plain bt (x ∷ l) (call_clear ∷ calls) r =
    ap (λ o. none ∷ o) (run-run_plain (clear bt) [] calls (clear-Represents bt (x ∷ l) r))

-- From a new stack on, any sequence of calls returns what a plain last-in first-out stack returns.
pub run-new_bt_stack :
    (root : ℕ) (calls : List Call) → run (new_bt_stack root) calls ≡ run_plain [] calls
run-new_bt_stack root calls =
    run-run_plain (new_bt_stack root) [] calls (new_bt_stack-Represents root)
