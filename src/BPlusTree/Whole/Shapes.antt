-- ===== src/BPlusTree/Whole/Shapes.antt =====
-- What the edits of a node leave alone, and the keys of a leaf as those that it binds.
use baobab.Prelude.{
  ℕ, ◌≡◌, ◌≢◌, refl, sym, subst, arith, inl, inr, Option-cases, none, List, [], ◌∷◌, length,
  get_elem?, All,
}
use baobab.Prelude.Run.{Run, done, panics, stuck}
use baobab.Prelude.Bytes.{Bytes, compare_bytes, Cmp-cases, compare_bytes_self, compare_bytes-same}
use baobab.BPlusTree.Node.{Node}
use baobab.BPlusTree.Leaf.{put_at}
use baobab.BPlusTree.Leaf.Entries.{value_of}

-- All but the keys and the values.
pub record OnlyCells (n n' : Node) : Type 0 where
  pub leaf : n'.leaf ≡ n.leaf
  pub right_sibling : n'.right_sibling ≡ n.right_sibling
  pub page_id : n'.page_id ≡ n.page_id

-- Of the result, if there is one.
abbrev IfDone : {A : Type 0} → (A → Type 0) → Run A → Type 0
IfDone P (done a) = P a
IfDone P panics = Unit
IfDone P stuck = Unit

put_at_cells : (n : Node) (i : ℕ) (key val : Bytes) → IfDone (OnlyCells n) (put_at n i key val)
unfolding put_at
put_at_cells n i key val = elim (Option-cases (get_elem? n.keys i)) [
  | inl e ↦ rw (e, IfDone) tt
  | inr (k, e) ↦ elim (Cmp-cases (compare_bytes key k)) [
    | inl c ↦ rw (e, c, IfDone) (record { leaf = refl; right_sibling = refl; page_id = refl })
    | inr (inl c) ↦ elim (Option-cases (get_elem? n.values i)) [
      | inl q ↦ rw (e, c, q, IfDone) tt
      | inr (v, q) ↦
          rw (e, c, q, IfDone) (record { leaf = refl; right_sibling = refl; page_id = refl })
    ]
    | inr (inr c) ↦ rw (e, c, IfDone) (record { leaf = refl; right_sibling = refl; page_id = refl })
  ]
]

pub put_at-OnlyCells :
    (n n' : Node) (i : ℕ) (key val : Bytes) → put_at n i key val ≡ done n' → OnlyCells n n'
put_at-OnlyCells n n' i key val h = subst (IfDone (OnlyCells n)) h (put_at_cells n i key val)

pub All-value_of :
    (P : Bytes → Type 0) (ks vs : List Bytes) (j : Bytes) → All P ks → value_of j ks vs ≢ none → P j
All-value_of P [] vs j all h = absurd (h refl)
All-value_of P (k ∷ ks) [] j all h = absurd (h refl)
All-value_of P (k ∷ ks) (v ∷ vs) j all h = elim (Cmp-cases (compare_bytes j k)) [
  | inl e ↦ All-value_of P ks vs j all.1 (λ r. h (ground (arith, e, r)))
  | inr (inl e) ↦ subst P (sym (compare_bytes-same j k e)) all.0
  | inr (inr e) ↦ All-value_of P ks vs j all.1 (λ r. h (ground (arith, e, r)))
]

pub value_of-All :
    (P : Bytes → Type 0) (ks vs : List Bytes)
    → length vs ≡ length ks
    → ((j : Bytes) → value_of j ks vs ≢ none → P j)
    → All P ks
value_of-All P [] vs h all = tt
value_of-All P (k ∷ ks) [] h all = absurd (omega arith)
value_of-All P (k ∷ ks) (v ∷ vs) h all = (
  all k (λ e. ground (arith, e, compare_bytes_self k)),
  value_of-All P ks vs (omega arith) (λ j ne. all j (λ e. ne (ground (arith, e)))),
)
