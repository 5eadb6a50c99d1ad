-- ===== src/BPlusTree/Leaf/Remove.antt =====
-- `remove` keeps a leaf in order and unbinds exactly the given key.
use baobab.Prelude.{
  ℕ, suc, ◌+◌, ◌≤◌, ◌≡◌, refl, sym, ap, ap₂, subst, ◌∙◌, arith, ◌⊎◌, inl, inr, List, ◌∷◌, ◌++◌,
  length, get_elem?, length-append, get_elem?-append, take-append, take, drop, some, none, Option,
}
use baobab.Prelude.Run.{Run, done, panics}
use baobab.Prelude.Bytes.{
  Bytes, Cmp, less, same, greater, compare_bytes, compare_bytes-same, compare_bytes_self, Cmp-cases,
}
use native.Mathlib.Decide.{dec_lt}
use baobab.Prelude.Sorted.{Below, Above, IsSorted, IsSorted-append_both}
use baobab.Helpers.Search.{insert_binary_search}
use baobab.Helpers.Search.Locates.{Locates, insert_binary_search-Locates}
use baobab.Helpers.Slices.Cut.{drop-suc-append}
use baobab.Wal.Writer.{Wal, add_del_log}
use baobab.BPlusTree.Node.{Node}
use baobab.BPlusTree.Leaf.{remove, Removal, absent, removed, remove_at}
use baobab.BPlusTree.Leaf.Logs.{IsLogged, log_del-cases}
use baobab.BPlusTree.Leaf.Around.{
  keys_around, values_around, read_key, read_value, no_cells, not_empty,
}
use baobab.BPlusTree.Leaf.Entries.{
  value_of, lookup, IsLeaf, value_of-append, value_of-Below, value_of-Above,
}

-- A map without a key.
abbrev pub unbind : Bytes → (Bytes → Option Bytes) → Bytes → Option Bytes
unbind key m j = elim (compare_bytes j key) [ same ↦ none | less ↦ m j | greater ↦ m j ]

-- What `remove` owes its caller.
abbrev pub Unbinds : Node → Bytes → Removal → Type 0
Unbinds n key absent = lookup n key ≡ none
Unbinds n key (removed n') =
    IsLeaf n'
    × ((j : Bytes) → lookup n' j ≡ unbind key (lookup n) j)
    × (length n'.keys + 1 ≡ length n.keys)

-- The log has no new entry for a key that is absent.
abbrev pub IsLoggedRemoval : Wal → Bytes → Node → Bytes → Removal → Wal → Type 0
IsLoggedRemoval w lsn n key absent w' = w' ≡ w
IsLoggedRemoval w lsn n key (removed n') w' =
    IsLogged w lsn (add_del_log w n.page_id key) (n'.lsn, w')

-- How a deletion from a leaf ends.
abbrev pub Removes : Wal → Bytes → Node → Bytes → Run (Removal × Wal) → Type 0
Removes w lsn n key run =
    ((r : Removal) × (w' : Wal) × (run ≡ done (r, w'))
      × Unbinds n key r
      × IsLoggedRemoval w lsn n key r w')
    ⊎ ((run ≡ panics)
        × (length lsn ≡ 0)
        × (length key ≡ 0)
        × ((val : Bytes) × (lookup n key ≡ some val)))

abbrev pub when_same : Cmp → Option Bytes → Option Bytes
when_same same o = o
when_same less o = none
when_same greater o = none

-- The value beside a key that stands between smaller and greater keys.
pub value_of-at :
    (key at_i : Bytes) (ks vs ks' vs' : List Bytes) (v : Bytes)
    → length vs ≡ length ks
    → Below key ks
    → Above key ks'
    → value_of key (ks ++ (at_i ∷ ks')) (vs ++ (v ∷ vs'))
      ≡ when_same (compare_bytes key at_i) (some v)
value_of-at key at_i ks vs ks' vs' v paired below above = ground (
  arith,
  value_of-append key ks vs (at_i ∷ ks') (v ∷ vs') paired,
  value_of-Below key ks vs below,
  value_of-Above key ks' vs' above,
)

-- Taking a cell out unbinds its key and no other.
value_of-remove :
    (key : Bytes) (ks vs ks' vs' : List Bytes) (v j : Bytes)
    → length vs ≡ length ks
    → Below key ks
    → Above key ks'
    → value_of j (ks ++ ks') (vs ++ vs')
      ≡ unbind key (λ i. value_of i (ks ++ (key ∷ ks')) (vs ++ (v ∷ vs'))) j
value_of-remove key ks vs ks' vs' v j paired below above = ground (
  arith,
  value_of-append j ks vs (key ∷ ks') (v ∷ vs') paired,
  value_of-append j ks vs ks' vs' paired,
  value_of-Below key ks vs below,
  value_of-Above key ks' vs' above,
  compare_bytes-same j key,
)

module _ (n : Node) (key : Bytes) (leaf : IsLeaf n) (i : ℕ) (f : Locates n.keys key i) where
  -- The key that the search found is the only one that can be the searched key.
  pub lookup-at : lookup n key ≡ when_same (compare_bytes key f.at_i) (get_elem? n.values i)
  lookup-at =
      let (vs, v, vs', e, p, q) = values_around n key leaf i f in
      ap₂ (value_of key) f.cut e
      ∙ value_of-at key f.at_i f.pre vs f.post vs' v p f.below f.above
      ∙ ap (when_same (compare_bytes key f.at_i))
          (sym (ap (λ l. get_elem? l i) e ∙ get_elem?-append vs vs' v i (p ∙ f.place)))

  shortened : Bytes → Node
  shortened lsn = record n {
    keys = take i n.keys ++ drop (suc i) n.keys;
    values = take i n.values ++ drop (suc i) n.values;
    lsn = lsn;
  }

  rest_keys : take i n.keys ++ drop (suc i) n.keys ≡ f.pre ++ f.post
  rest_keys =
      ap₂ (λ a b. a ++ b) (ap (take i) f.cut ∙ take-append f.pre (f.at_i ∷ f.post) i f.place)
        (ap (drop (suc i)) f.cut ∙ drop-suc-append f.pre f.post f.at_i i f.place)

  rest-IsSorted : IsSorted (f.pre ++ f.post)
  rest-IsSorted =
      let c = keys_around n key leaf i f in
      IsSorted-append_both f.at_i f.pre f.post c.left_sorted c.right_sorted c.left_below
        c.right_above

  shortened-Unbinds : (lsn : Bytes) → f.at_i ≡ key → Unbinds n key (removed (shortened lsn))
  unfolding shortened
  shortened-Unbinds lsn h =
      let (vs, v, vs', e, p, q) = values_around n key leaf i f in
      let place' : length vs ≡ i = p ∙ f.place in
      let rest_values : take i n.values ++ drop (suc i) n.values ≡ vs ++ vs' =
        ap₂ (λ a b. a ++ b) (ap (take i) e ∙ take-append vs (v ∷ vs') i place')
          (ap (drop (suc i)) e ∙ drop-suc-append vs vs' v i place') in
      let whole : n.keys ≡ f.pre ++ (key ∷ f.post) = f.cut ∙ ap (λ k. f.pre ++ (k ∷ f.post)) h in
      (
        record {
          sorted = subst IsSorted (sym rest_keys) rest-IsSorted;
          paired =
              rw (rest_keys, rest_values)
                (omega (arith, length-append vs vs', length-append f.pre f.post));
        },
        λ j.
            rw (rest_keys, rest_values)
              (value_of-remove key f.pre vs f.post vs' v j p f.below f.above
                ∙ ap₂ (λ a b. unbind key (λ k. value_of k a b) j) (sym whole) (sym e)),
        rw (rest_keys, whole)
            (omega (arith, length-append f.pre f.post, length-append f.pre (key ∷ f.post))),
      )

  -- The key is there, and the deletion is logged.
  removes : (w : Wal) (lsn : Bytes) → f.at_i ≡ key → Removes w lsn n key (remove_at w lsn n key i)
  unfolding shortened
  removes w lsn same_key =
      let read = read_key n key leaf i f in
      let c : compare_bytes key f.at_i ≡ same =
        ap (compare_bytes key) same_key ∙ compare_bytes_self key in
      let (v, read_v) = read_value n key leaf i f in
      elim (log_del-cases w lsn n.page_id key) [
        | inl (logged, e, l) ↦ inl (
          removed (shortened logged.0),
          logged.1,
          ground (arith, read, leaf.paired, cells_after, c, e),
          shortened-Unbinds logged.0 same_key,
          l,
        )
        | inr (e, no_lsn, no_key) ↦
            inr (
              ground (arith, read, c, e),
              no_lsn,
              no_key,
              (v, lookup-at ∙ ground (arith, c, read_v)),
            )
      ]
    where
      cells_after : suc i ≤ length n.keys
      cells_after =
          omega (arith, ap (λ l. length l) f.cut, length-append f.pre (f.at_i ∷ f.post), f.place)

remove_at-Removes :
    (w : Wal) (lsn : Bytes) (n : Node) (key : Bytes) (leaf : IsLeaf n) (i : ℕ)
    (f : Locates n.keys key i)
    → Removes w lsn n key (remove_at w lsn n key i)
remove_at-Removes w lsn n key leaf i f =
    let read = read_key n key leaf i f in
    elim (Cmp-cases (compare_bytes key f.at_i)) [
      | inl c ↦ inl (absent, w, ground (arith, read, c), lookup-at n key leaf i f ∙ rw c refl, refl)
      | inr (inl c) ↦ removes n key leaf i f w lsn (sym (compare_bytes-same key f.at_i c))
      | inr (inr c) ↦
          inl (absent, w, ground (arith, read, c), lookup-at n key leaf i f ∙ rw c refl, refl)
    ]

-- Deleting from a leaf whose keys are strictly ascending, with one value each, either succeeds or
-- panics. It panics only when the caller brings no LSN and the key, which the leaf binds, is empty.
-- Otherwise a key that the leaf does not bind is reported as absent and nothing is logged; any other is
-- unbound, every other key keeps its value, the leaf is such a leaf again with one key less, and it
-- takes the caller's LSN, or else that of the deletion which is then added to the log.
pub remove-Unbinds :
    (w : Wal) (lsn : Bytes) (n : Node) (key : Bytes)
    → IsLeaf n
    → Removes w lsn n key (remove w lsn n key)
unfolding remove
remove-Unbinds w lsn n key leaf = elim (dec_lt 0 (length n.keys)) [
  | yes some_key ↦
      let (i, e, f) = insert_binary_search-Locates n.keys key 0 some_key leaf.sorted in
      let at_i : insert_binary_search n.keys key 0 ≡ done i = e ∙ ap done (omega arith) in
      rw (not_empty n some_key, at_i) (remove_at-Removes w lsn n key leaf i f)
  | no no_key ↦ inl (
    absent,
    w,
    ground arith,
    ap (λ l. value_of key l n.values) (no_cells n.keys (omega arith)),
    refl,
  )
]
