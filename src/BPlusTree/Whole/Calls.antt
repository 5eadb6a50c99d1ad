-- ===== src/BPlusTree/Whole/Calls.antt =====
-- Any sequence of insertions and reads, against a map.
use baobab.Prelude.{
  ℕ, zero, ◌+◌, ◌≤◌, ◌<◌, ◌≡◌, refl, sym, ◌∙◌, arith, inl, inr, none, List, [], ◌∷◌, length,
}
use baobab.Prelude.Run.{Run, done, ◌>>=◌}
use baobab.Prelude.Bytes.{Bytes}
use baobab.Helpers.Lsn.{Checked, ok}
use baobab.BPlusTree.Leaf.Entries.{bind}
use baobab.BPlusTree.Cache.{Cache, Keeps, build_page}
use baobab.BPlusTree.Cache.Writes.{none-not_some}
use baobab.BPlusTree.Insert.{BTree, or_failed}
use baobab.BPlusTree.Insert.Value.{insert_value}
use baobab.BPlusTree.Whole.{Got, not_initialized, get}
use baobab.BPlusTree.Whole.Tree.{Map}
use baobab.BPlusTree.Whole.Reads.{got_of, get-Tree}
use baobab.BPlusTree.Whole.Root.{IsTree, empty}
use baobab.BPlusTree.Whole.Inserts.{root_positive, insert_value-StandsFor}

pub data Call : Type 0 where
  call_insert : Bytes → Bytes → Call
  call_get : Bytes → Call

module _ {S : Type 0} (c : Cache S) where
  -- The calls in turn, and what the reads among them return. An error of an insertion ends the run.
  unfoldable pub run : ℕ → BTree S → List Call → Run (Checked (List Got))
  run fuel bt [] = done (ok [])
  run fuel bt (call_insert key val ∷ calls) =
      or_failed (insert_value c fuel bt (key ∷ []) (val ∷ []) []) λ bt'. run fuel bt' calls
  run fuel bt (call_get key ∷ calls) =
      get c fuel bt key >>= λ got. or_failed (run fuel bt calls) λ rest. done (ok (got ∷ rest))

-- The same calls on a map that a tree stands for.
pub replay : Map → List Call → List Got
replay m [] = []
replay m (call_insert key val ∷ calls) = replay (bind key val m) calls
replay m (call_get key ∷ calls) = got_of (m key) ∷ replay m calls

-- Before the first insertion there is no tree.
pub replay_new : List Call → List Got
replay_new [] = []
replay_new (call_insert key val ∷ calls) = replay (bind key val empty) calls
replay_new (call_get key ∷ calls) = not_initialized ∷ replay_new calls

-- The inserted keys and values are not empty.
abbrev pub AreValid : List Call → Type 0
AreValid [] = Unit
AreValid (call_insert key val ∷ calls) = (0 < length key) × (0 < length val) × AreValid calls
AreValid (call_get key ∷ calls) = AreValid calls

run-replay :
    {S : Type 0} (c : Cache S) (k : Keeps c) (fuel height : ℕ) (bt : BTree S) (m : Map)
    (calls : List Call)
    → IsTree c height bt m
    → AreValid calls
    → height + length calls + 2 ≤ fuel
    → run c fuel bt calls ≡ done (ok (replay m calls))
unfolding run replay
run-replay c k fuel height bt m [] t v room = refl
run-replay c k fuel height bt m (call_insert key val ∷ calls) t v room =
    let (bt', height', runs, low, t') =
      insert_value-StandsFor c k fuel height bt m (key ∷ []) (val ∷ []) [] (inl t) (omega arith)
        refl (v.0, tt) (v.1, tt) (omega arith) in
    let rest =
      run-replay c k fuel height' bt' (bind key val m) calls t' v.2 (omega (arith, low, room)) in
    ground (arith, runs, rest)
run-replay c k fuel height bt m (call_get key ∷ calls) t v room =
    let got =
      get-Tree c fuel height bt m t.ids key t.sound t.tree (root_positive c height bt m t)
        (omega arith) in
    ground (arith, got, run-replay c k fuel height bt m calls t v (omega arith))

-- Over a page cache that keeps what is written to it and starts without pages, any sequence of
-- insertions of keys and values that are not empty and of reads succeeds, and each read returns what a map returns after the insertions before it: the last
-- value that was bound to the key, "Key not found" when there was none, and "Key Value store not
-- initialized" before the first insertion. Fuel for two more than the number of calls is enough.
pub run-replay_new :
    {S : Type 0} (c : Cache S) (k : Keeps c) (fuel : ℕ) (bt : BTree S) (calls : List Call)
    → bt.root ≡ 0
    → ((a : ℕ) → build_page c bt.cache a ≡ none)
    → AreValid calls
    → length calls + 2 ≤ fuel
    → run c fuel bt calls ≡ done (ok (replay_new calls))
unfolding run replay_new get
run-replay_new c k fuel bt [] no_root no_pages v room = refl
run-replay_new c k fuel bt (call_insert key val ∷ calls) no_root no_pages v room =
    let (bt', height', runs, low, t') =
      insert_value-StandsFor c k fuel zero bt empty (key ∷ []) (val ∷ []) []
        (inr (no_root, (λ a n h. absurd (none-not_some (sym (no_pages a) ∙ h))), refl))
        (omega arith) refl (v.0, tt) (v.1, tt) (omega arith) in
    let rest =
      run-replay c k fuel height' bt' (bind key val empty) calls t' v.2
        (omega (arith, low, room)) in
    ground (arith, runs, rest)
run-replay_new c k fuel bt (call_get key ∷ calls) no_root no_pages v room =
    ground (arith, no_root, run-replay_new c k fuel bt calls no_root no_pages v (omega arith))
