-- ===== src/BPlusTree/Whole/Inserts.antt =====
-- `InsertValue` against a map: what it binds, and what `Get` finds afterwards.
use baobab.Prelude.{
  ℕ, zero, suc, ◌+◌, ◌≤◌, ◌<◌, ◌≡◌, refl, sym, ap, subst, ◌∙◌, arith, ◌⊎◌, inl, inr, none, List, [],
  ◌∷◌, length, All,
}
use baobab.Prelude.Run.{Run, done, panics, stuck}
use baobab.Prelude.Bytes.{Bytes}
use baobab.Helpers.Lsn.{Checked, ok, failed}
use baobab.BPlusTree.Leaf.Entries.{bind}
use baobab.BPlusTree.Stack.{new_bt_stack}
use baobab.BPlusTree.Stack.Refines.{new_bt_stack-Represents}
use baobab.BPlusTree.Cache.{Cache, Keeps}
use baobab.BPlusTree.Insert.{BTree, SplitResponse, or_failed}
use baobab.BPlusTree.Insert.Propagate.{Propagating, add_root, propagate_step, propagate}
use baobab.BPlusTree.Insert.Value.{descend, insert_one, insert_value}
use baobab.BPlusTree.Whole.Tree.{Map, Bound, Tree, Sound}
use baobab.BPlusTree.Whole.Steps.{Stored}
use baobab.BPlusTree.Whole.Grown.{Parts}
use baobab.BPlusTree.Whole.Grow.{Grew, grew}
use baobab.BPlusTree.Whole.Root.{IsTree, empty, add_root-IsTree, insert_root-IsTree}

or_failed_assoc :
    {A B D : Type 0} (r : Run (Checked A)) (f : A → Run (Checked B)) (g : B → Run (Checked D))
    → or_failed r (λ a. or_failed (f a) g) ≡ or_failed (or_failed r f) g
or_failed_assoc (done (ok a)) f g = refl
or_failed_assoc (done failed) f g = refl
or_failed_assoc panics f g = refl
or_failed_assoc stuck f g = refl

module _ {S : Type 0} (c : Cache S) where
  propagate_stops :
      (up : ℕ) (p : Propagating S) → p.rp.new_node_id ≡ 0 → 0 < up → propagate c up p ≡ done (ok p)
  unfolding propagate
  propagate_stops zero p no_split h = absurd (omega arith)
  propagate_stops (suc up) p no_split h = ground (arith, no_split)

  propagate_root :
      (up : ℕ) (p : Propagating S) (bt' : BTree S)
      → 0 < p.rp.new_node_id
      → p.stack.count ≡ 0
      → add_root c p.bt p.rp ≡ done (ok bt')
      → 1 < up
      → propagate c up p
        ≡ done (ok (record { bt = bt'; rp = record p.rp { new_node_id = 0 }; stack = p.stack }))
  unfolding propagate propagate_step
  propagate_root zero p bt' split no_parent adds h = absurd (omega arith)
  propagate_root (suc zero) p bt' split no_parent adds h = absurd (omega arith)
  propagate_root (suc (suc up)) p bt' split no_parent adds h =
      ground (arith, split, no_parent, adds)

  root_Stored :
      (height : ℕ) (s : S) (lo hi : Bound) (id : ℕ) (m : Map) (ids : List ℕ)
      → Tree c height s lo hi id m ids
      → Stored c s id
  unfolding Tree
  root_Stored zero s lo hi id m ids t = (t.node, t.stored)
  root_Stored (suc height) s lo hi id m ids t = (t.node, t.stored)

  pub root_positive : (height : ℕ) (bt : BTree S) (m : Map) → IsTree c height bt m → 0 < bt.root
  root_positive height bt m t =
      let (n, e) = root_Stored height bt.cache none none bt.root m t.ids t.tree in
      (t.sound bt.root n e).positive

  module _ (k : Keeps c) where
    -- The propagation that is left at the root.
    at_root :
        (height : ℕ) (bt : BTree S) (m : Map) (key val lsn : Bytes) (some_key : 0 < length key)
        (some_val : 0 < length val) (ids : List ℕ) (fuel : ℕ) (p : Propagating S)
        → height + 2 ≤ fuel
        → (g : Grew c k key val some_key some_val lsn height bt [] none none bt.root m ids fuel fuel
            p)
        → (q : Propagating S) × (height' : ℕ) × (propagate c g.up' g.p' ≡ done (ok q))
          × (height' ≤ height + 1)
          × IsTree c height' q.bt (bind key val m)
    at_root height bt m key val lsn some_key some_val ids fuel p room g = elim g.result [
      | inl (no_split, more, w) ↦ (
        g.p',
        height,
        propagate_stops g.up' g.p' no_split more,
        omega arith,
        record {
          sound = w.effect.sound;
          ids = w.ids';
          once = w.effect.once;
          tree =
              subst (λ r. Tree c height g.p'.bt.cache none none r (bind key val m) w.ids')
                (sym g.same_root) w.tree;
        },
      )
      | inr (r, enough, parts) ↦
          let parts' : Parts c height bt.cache g.p'.bt.cache none none g.p'.bt.root (bind key val m)
              ids g.p'.rp =
            subst
              (λ x. Parts c height bt.cache g.p'.bt.cache none none x (bind key val m) ids g.p'.rp)
              (sym g.same_root) parts in
          let (bt', adds, t) =
            add_root-IsTree c k height bt.cache g.p'.bt (bind key val m) ids g.p'.rp parts' in
          (
            record { bt = bt'; rp = record g.p'.rp { new_node_id = 0 }; stack = g.p'.stack },
            suc height,
            propagate_root g.up' g.p' bt' parts.positive r.counted adds
                (omega (arith, enough, room)),
            omega arith,
            t,
          )
    ]

    insert_one-IsTree :
        (height fuel : ℕ) (bt : BTree S) (m : Map) (lsn key val : Bytes)
        → IsTree c height bt m
        → 0 < length key
        → 0 < length val
        → height + 2 ≤ fuel
        → (bt' : BTree S) × (height' : ℕ) × (insert_one c fuel bt lsn key val
            ≡ done (ok (bt', lsn)))
          × (height' ≤ height + 1)
          × IsTree c height' bt' (bind key val m)
    unfolding insert_one
    insert_one-IsTree height fuel bt m lsn key val t some_key some_val room =
        let no_split : SplitResponse = record {
          promoted_separator_key = [];
          new_node_id = 0;
          op_lsn = [];
        } in
        let g =
          grew c k key val some_key some_val lsn height bt no_split (new_bt_stack bt.root) [] none
            none bt.root m t.ids fuel fuel t.tree t.sound t.once tt tt refl room room
            (new_bt_stack-Represents bt.root) in
        let (q, height', ends, low, t') =
          at_root height bt m key val lsn some_key some_val t.ids fuel _ room g in
        let start : Propagating S = record {
          bt = bt;
          rp = no_split;
          stack = new_bt_stack bt.root;
        } in
        let finish : Propagating S → Run (Checked (BTree S × Bytes)) = λ p. done (ok (p.bt, lsn)) in
        let runs : or_failed (descend c fuel lsn key val bt.root start)
              (λ p. or_failed (propagate c fuel p) finish)
            ≡ done (ok (q.bt, lsn)) =
          or_failed_assoc (descend c fuel lsn key val bt.root start) (λ p. propagate c fuel p)
            finish
          ∙ ap (λ r. or_failed r finish) (g.runs ∙ ends) in
        (q.bt, height', ground (arith, root_positive height bt m t, runs), low, t')

    -- A tree for the map, or no root yet.
    abbrev pub StandsFor : ℕ → BTree S → Map → Type 0
    StandsFor height bt m = IsTree c height bt m ⊎ ((bt.root ≡ 0) × Sound c bt.cache × (m ≡ empty))

    insert_one-StandsFor :
        (height fuel : ℕ) (bt : BTree S) (m : Map) (lsn key val : Bytes)
        → StandsFor height bt m
        → 0 < length key
        → 0 < length val
        → height + 2 ≤ fuel
        → (bt' : BTree S) × (lsn' : Bytes) × (height' : ℕ) × (insert_one c fuel bt lsn key val
            ≡ done (ok (bt', lsn')))
          × (height' ≤ height + 1)
          × IsTree c height' bt' (bind key val m)
    unfolding insert_one
    insert_one-StandsFor height fuel bt m lsn key val (inl t) some_key some_val room =
        let (bt', height', runs, low, t') =
          insert_one-IsTree height fuel bt m lsn key val t some_key some_val room in
        (bt', lsn, height', runs, low, t')
    insert_one-StandsFor height fuel bt m lsn key val (inr (no_root, sound, no_keys)) some_key
          some_val room =
        let (bt', lsn', runs, t) = insert_root-IsTree c k bt lsn key val sound some_key some_val in
        (
          bt',
          lsn',
          zero,
          ground (arith, no_root, runs),
          omega arith,
          subst (λ n. IsTree c zero bt' (bind key val n)) (sym no_keys) t,
        )

-- The bindings of `keys` to `vals` put over a map, the later ones over the earlier ones.
abbrev pub bind_all : List Bytes → List Bytes → Map → Map
bind_all [] vals m = m
bind_all (key ∷ keys) [] m = m
bind_all (key ∷ keys) (val ∷ vals) m = bind_all keys vals (bind key val m)

abbrev pub NotEmpty : List Bytes → Type 0
NotEmpty = All (λ b. 0 < length b)

insert_value-IsTree :
    {S : Type 0} (c : Cache S) (k : Keeps c) (fuel height : ℕ) (bt : BTree S) (m : Map)
    (keys vals : List Bytes) (lsn : Bytes)
    → IsTree c height bt m
    → length vals ≡ length keys
    → NotEmpty keys
    → NotEmpty vals
    → height + length keys + 2 ≤ fuel
    → (bt' : BTree S) × (height' : ℕ) × (insert_value c fuel bt keys vals lsn ≡ done (ok bt'))
      × (height' ≤ height + length keys)
      × IsTree c height' bt' (bind_all keys vals m)
unfolding insert_value
insert_value-IsTree c k fuel height bt m [] vals lsn t h ks vs room =
    (bt, height, refl, omega arith, t)
insert_value-IsTree c k fuel height bt m (key ∷ keys) [] lsn t h ks vs room = absurd (omega arith)
insert_value-IsTree c k fuel height bt m (key ∷ keys) (val ∷ vals) lsn t h ks vs room =
    let (bt₁, height₁, runs, low, t₁) =
      insert_one-IsTree c k height fuel bt m lsn key val t ks.0 vs.0 (omega arith) in
    let (bt₂, height₂, rest, low₂, t₂) =
      insert_value-IsTree c k fuel height₁ bt₁ (bind key val m) keys vals lsn t₁ (omega arith) ks.1
        vs.1 (omega (arith, low, room)) in
    (bt₂, height₂, ground (arith, runs, rest), omega (arith, low, low₂), t₂)

-- Over a page cache that keeps what is written to it, from a tree for a map or from no tree
-- yet, inserting one or more keys that are not empty with as
-- many values that are not empty succeeds. It leaves a tree for the map with the keys bound to the
-- values, a later one over an earlier one, at most one level higher for each key. Fuel for the
-- height, the number of keys and two is enough.
pub insert_value-StandsFor :
    {S : Type 0} (c : Cache S) (k : Keeps c) (fuel height : ℕ) (bt : BTree S) (m : Map)
    (keys vals : List Bytes) (lsn : Bytes)
    → StandsFor c k height bt m
    → 0 < length keys
    → length vals ≡ length keys
    → NotEmpty keys
    → NotEmpty vals
    → height + length keys + 2 ≤ fuel
    → (bt' : BTree S) × (height' : ℕ) × (insert_value c fuel bt keys vals lsn ≡ done (ok bt'))
      × (height' ≤ height + length keys)
      × IsTree c height' bt' (bind_all keys vals m)
unfolding insert_value
insert_value-StandsFor c k fuel height bt m [] vals lsn t some_keys h ks vs room =
    absurd (omega arith)
insert_value-StandsFor c k fuel height bt m (key ∷ keys) [] lsn t some_keys h ks vs room =
    absurd (omega arith)
insert_value-StandsFor c k fuel height bt m (key ∷ keys) (val ∷ vals) lsn t some_keys h ks vs room =
    let (bt₁, lsn₁, height₁, runs, low, t₁) =
      insert_one-StandsFor c k height fuel bt m lsn key val t ks.0 vs.0 (omega arith) in
    let (bt₂, height₂, rest, low₂, t₂) =
      insert_value-IsTree c k fuel height₁ bt₁ (bind key val m) keys vals lsn₁ t₁ (omega arith) ks.1
        vs.1 (omega (arith, low, room)) in
    (bt₂, height₂, ground (arith, runs, rest), omega (arith, low, low₂), t₂)
