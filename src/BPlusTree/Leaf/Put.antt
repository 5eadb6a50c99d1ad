-- ===== src/BPlusTree/Leaf/Put.antt =====
-- `put` keeps a leaf in order and binds exactly the given key.
use baobab.Prelude.{
  ℕ, suc, ◌+◌, ◌≤◌, ◌<◌, ◌≡◌, refl, sym, ap, ap₂, subst, ◌∙◌, arith, List, [], ◌∷◌, ◌++◌,
  append_assoc, length, length-append, All-append, ◌⊎◌, inl, inr, set,
}
use native.Mathlib.Decide.{dec_lt}
use baobab.Prelude.Run.{done, panics}
use baobab.Prelude.Bytes.{
  Bytes, compare_bytes, ◌≺◌, compare_bytes-same, compare_bytes-greater, Cmp-cases,
}
use baobab.Prelude.Sorted.{Below, Above, IsSorted, IsSorted-append}
use baobab.Helpers.Search.{insert_binary_search}
use baobab.Helpers.Search.Locates.{Locates, insert_binary_search-Locates}
use baobab.Helpers.Slices.{insert_to_list}
use baobab.Helpers.Slices.Cut.{insert_to_list-append, set-append}
use baobab.Wal.Writer.{Wal, add_put_log}
use baobab.BPlusTree.Node.{Node}
use baobab.BPlusTree.Leaf.{put_at, put}
use baobab.BPlusTree.Leaf.Logs.{IsLogged, log_put-cases}
use baobab.BPlusTree.Leaf.Around.{keys_around, values_around, read_key, read_value, no_cells}
use baobab.BPlusTree.Leaf.Entries.{
  value_of, lookup, bind, IsLeaf, value_of-insert, value_of-replace,
}

-- A leaf with the given cells, and what else the node holds.
abbrev with_cells : Node → List Bytes → List Bytes → Node
with_cells n ks vs = record n { keys = ks; values = vs }

-- A leaf cut in two, to the left of a key's place: keys before are smaller, keys after greater.
record Gap (n : Node) (key : Bytes) (i : ℕ) : Type 0 where
  ks : List Bytes
  ks' : List Bytes
  vs : List Bytes
  vs' : List Bytes
  keys_cut : n.keys ≡ ks ++ ks'
  values_cut : n.values ≡ vs ++ vs'
  place : length ks ≡ i
  paired : length vs ≡ length ks
  paired' : length vs' ≡ length ks'
  sorted : IsSorted ks
  sorted' : IsSorted ks'
  below : Below key ks
  above : Above key ks'

-- What `put` owes its caller.
abbrev pub Binds : Node → Bytes → Bytes → Node → Type 0
Binds n key val n' =
    IsLeaf n'
    × ((j : Bytes) → lookup n' j ≡ bind key val (lookup n) j)
    × (length n'.keys ≤ length n.keys + 1)

module _ (n : Node) (key val : Bytes) (i : ℕ) (g : Gap n key i) where
  inserted : Node
  inserted = with_cells n (insert_to_list n.keys i key) (insert_to_list n.values i val)

  inserted_keys : insert_to_list n.keys i key ≡ g.ks ++ (key ∷ g.ks')
  inserted_keys =
      ap (λ l. insert_to_list l i key) g.keys_cut ∙ insert_to_list-append g.ks g.ks' i key g.place

  inserted_values : insert_to_list n.values i val ≡ g.vs ++ (val ∷ g.vs')
  inserted_values =
      ap (λ l. insert_to_list l i val) g.values_cut
      ∙ insert_to_list-append g.vs g.vs' i val (g.paired ∙ g.place)

  inserted-IsSorted : IsSorted (g.ks ++ (key ∷ g.ks'))
  inserted-IsSorted = IsSorted-append g.ks key g.ks' (record {
    left_sorted = g.sorted;
    right_sorted = g.sorted';
    left_below = g.below;
    right_above = g.above;
  })

  inserted-Binds : Binds n key val inserted
  unfolding inserted
  inserted-Binds = (
    record {
      sorted = subst IsSorted (sym inserted_keys) inserted-IsSorted;
      paired =
          rw (inserted_keys, inserted_values)
            (omega (
              arith,
              length-append g.vs (val ∷ g.vs'),
              length-append g.ks (key ∷ g.ks'),
              g.paired,
              g.paired',
            ));
    },
    λ j.
        rw (inserted_keys, inserted_values)
          (value_of-insert key val g.ks g.vs g.ks' g.vs' g.paired g.below j
            ∙ ap₂ (λ a b. bind key val (λ k. value_of k a b) j) (sym g.keys_cut)
                (sym g.values_cut)),
    rw inserted_keys (
        omega (
          arith,
          length-append g.ks (key ∷ g.ks'),
          length-append g.ks g.ks',
          ap (λ l. length l) g.keys_cut,
        )),
  )

module _ (n : Node) (key val : Bytes) (leaf : IsLeaf n) (i : ℕ) (f : Locates n.keys key i) where
  Gap-before : key ≺ f.at_i → Gap n key i
  Gap-before h =
      let (vs, v, vs', e, p, q) = values_around n key leaf i f in
      record {
        ks = f.pre;
        ks' = f.at_i ∷ f.post;
        vs = vs;
        vs' = v ∷ vs';
        keys_cut = f.cut;
        values_cut = e;
        place = f.place;
        paired = p;
        paired' = ap suc q;
        sorted = (keys_around n key leaf i f).left_sorted;
        sorted' =
            ((keys_around n key leaf i f).right_above, (keys_around n key leaf i f).right_sorted);
        below = f.below;
        above = (h, f.above);
      }

  Gap-after : f.at_i ≺ key → Gap n key (i + 1)
  Gap-after h =
      let (vs, v, vs', e, p, q) = values_around n key leaf i f in
      record {
        ks = f.pre ++ (f.at_i ∷ []);
        ks' = f.post;
        vs = vs ++ (v ∷ []);
        vs' = vs';
        keys_cut = f.cut ∙ sym (append_assoc f.pre (f.at_i ∷ []) f.post);
        values_cut = e ∙ sym (append_assoc vs (v ∷ []) vs');
        place = omega (arith, length-append f.pre (f.at_i ∷ []), f.place);
        paired = omega (arith, length-append f.pre (f.at_i ∷ []), length-append vs (v ∷ []));
        paired' = q;
        sorted = IsSorted-append f.pre f.at_i [] (record {
          left_sorted = (keys_around n key leaf i f).left_sorted;
          right_sorted = tt;
          left_below = (keys_around n key leaf i f).left_below;
          right_above = tt;
        });
        sorted' = (keys_around n key leaf i f).right_sorted;
        below = All-append (λ z. z ≺ key) f.pre (f.at_i ∷ []) f.below (h, tt);
        above = f.above;
      }

  replaced_Binds :
      f.at_i ≡ key → Binds n key val (with_cells n (set n.keys i key) (set n.values i val))
  replaced_Binds same_key =
      let (vs, v, vs', e, p, q) = values_around n key leaf i f in
      let ek : set n.keys i key ≡ f.pre ++ (key ∷ f.post) =
        ap (λ l. set l i key) f.cut ∙ set-append f.pre f.post f.at_i key i f.place in
      let ev : set n.values i val ≡ vs ++ (val ∷ vs') =
        ap (λ l. set l i val) e ∙ set-append vs vs' v val i (p ∙ f.place) in
      let old : n.keys ≡ f.pre ++ (key ∷ f.post) =
        f.cut ∙ ap (λ k. f.pre ++ (k ∷ f.post)) same_key in
      (
        record {
          sorted = subst IsSorted (old ∙ sym ek) leaf.sorted;
          paired =
              rw (ek, ev)
                (omega (arith, length-append vs (val ∷ vs'), length-append f.pre (key ∷ f.post)));
        },
        λ j.
            rw (ek, ev)
              (value_of-replace key val f.pre vs f.post vs' p f.below v j
                ∙ ap₂ (λ a b. bind key val (λ k. value_of k a b) j) (sym old) (sym e)),
        rw (ek, old) (omega arith),
      )

  pub put_at-Binds :
      (n' : Node) × (put_at n i key val ≡ done n') × (n'.lsn ≡ n.lsn) × Binds n key val n'
  unfolding put_at inserted
  put_at-Binds =
      let read = read_key n key leaf i f in
      let (v, read_v) = read_value n key leaf i f in
      elim (Cmp-cases (compare_bytes key f.at_i)) [
        | inl c ↦ (
          inserted n key val i (Gap-before c),
          ground (arith, read),
          refl,
          inserted-Binds n key val i (Gap-before c),
        )
        | inr (inl c) ↦ (
          with_cells n (set n.keys i key) (set n.values i val),
          ground (arith, read, read_v),
          refl,
          replaced_Binds (sym (compare_bytes-same key f.at_i c)),
        )
        | inr (inr c) ↦
            let h = compare_bytes-greater key f.at_i c in
            (
              inserted n key val (i + 1) (Gap-after h),
              ground (arith, read),
              refl,
              inserted-Binds n key val (i + 1) (Gap-after h),
            )
      ]

-- A leaf that has no keys, and then no values, becomes a leaf of the one binding.
one-Binds :
    (n : Node) (key val lsn : Bytes)
    → length n.keys ≡ 0
    → Binds n key val (record n { keys = key ∷ []; values = val ∷ []; lsn = lsn })
one-Binds n key val lsn no_keys = (
  record { sorted = (tt, tt); paired = refl },
  λ j.
      ap (λ (l : List Bytes). bind key val (λ k. value_of k l n.values) j)
        (sym (no_cells n.keys no_keys)),
  omega arith,
)

-- How an insertion into a leaf ends.
abbrev pub Puts : Wal → Bytes → Node → Bytes → Bytes → Type 0
Puts w lsn n key val =
    ((n' : Node) × (w' : Wal) × (put w lsn n key val ≡ done (n', w'))
      × Binds n key val n'
      × IsLogged w lsn (add_put_log w n.page_id key val) (n'.lsn, w'))
    ⊎ ((put w lsn n key val ≡ panics) × (length lsn ≡ 0) × ((length key ≡ 0) ⊎ (length val ≡ 0)))

put_empty :
    (w : Wal) (lsn : Bytes) (n : Node) (key val : Bytes)
    → length n.keys ≡ 0
    → length n.values ≡ 0
    → Puts w lsn n key val
unfolding put
put_empty w lsn n key val no_keys no_values = elim (log_put-cases w lsn n.page_id key val) [
  | inl (logged, e, l) ↦ inl (
    record n { keys = key ∷ []; values = val ∷ []; lsn = logged.0 },
    logged.1,
    ground (arith, no_keys, no_values, e),
    one-Binds n key val logged.0 no_keys,
    l,
  )
  | inr (e, no_lsn, bad) ↦ inr (ground (arith, no_keys, no_values, e), no_lsn, bad)
]

put_some :
    (w : Wal) (lsn : Bytes) (n : Node) (key val : Bytes)
    → IsLeaf n
    → 0 < length n.keys
    → Puts w lsn n key val
unfolding put
put_some w lsn n key val leaf some_key =
    let (i, found, f) = insert_binary_search-Locates n.keys key 0 some_key leaf.sorted in
    let found' : insert_binary_search n.keys key 0 ≡ done i = found ∙ ap done (omega arith) in
    let read = read_key n key leaf i f in
    elim (log_put-cases w lsn n.page_id key val) [
      | inl (logged, e, l) ↦
          let n₁ : Node = record n { lsn = logged.0 } in
          let (n', puts, same, b) =
            put_at-Binds n₁ key val (record { sorted = leaf.sorted; paired = leaf.paired }) i f in
          inl (
            n',
            logged.1,
            ground (arith, some_key, found', read, e, puts),
            b,
            subst (λ x. IsLogged w lsn (add_put_log w n.page_id key val) (x, logged.1)) (sym same)
                l,
          )
      | inr (e, no_lsn, bad) ↦ inr (ground (arith, some_key, found', read, e), no_lsn, bad)
    ]

-- Inserting into a leaf whose keys are strictly ascending, with one value each, either succeeds or
-- panics. It panics only when the caller brings no LSN and the key or the value is empty. Otherwise the
-- leaf is such a leaf again, it binds the inserted key to the inserted value, every other key is bound
-- as before, and it has one more key at most; it takes the caller's LSN, or else that of the put which
-- is then added to the log.
pub put-Binds :
    (w : Wal) (lsn : Bytes) (n : Node) (key val : Bytes) → IsLeaf n → Puts w lsn n key val
put-Binds w lsn n key val leaf = elim (dec_lt 0 (length n.keys)) [
  | yes some_key ↦ put_some w lsn n key val leaf some_key
  | no none_left ↦ put_empty w lsn n key val (omega arith) (omega (arith, leaf.paired))
]
