-- ===== src/BPlusTree/Leaf/Entries.antt =====
-- The map that a leaf stands for.
use baobab.Prelude.{◌≡◌, refl, arith, Option, none, some, List, [], ◌∷◌, ◌++◌, length}
use baobab.Prelude.Bytes.{Bytes, less, same, greater, compare_bytes, ≺_flip, compare_bytes-same}
use baobab.Prelude.Sorted.{Below, Above, IsSorted}
use baobab.BPlusTree.Node.{Node}

-- The value beside the first key that compares equal, whatever the order of the keys.
abbrev pub value_of : Bytes → List Bytes → List Bytes → Option Bytes
value_of j [] vs = none
value_of j (k ∷ ks) [] = none
value_of j (k ∷ ks) (v ∷ vs) =
    let rest = value_of j ks vs in
    elim (compare_bytes j k) [ same ↦ some v | less ↦ rest | greater ↦ rest ]

-- What `j` is bound to in a leaf.
abbrev pub lookup : Node → Bytes → Option Bytes
lookup n j = value_of j n.keys n.values

-- A binding put over a map.
abbrev pub bind : Bytes → Bytes → (Bytes → Option Bytes) → Bytes → Option Bytes
bind key val m j = elim (compare_bytes j key) [ same ↦ some val | less ↦ m j | greater ↦ m j ]

-- A leaf's keys ascend strictly and each has its value.
pub record IsLeaf (n : Node) : Type 0 where
  pub sorted : IsSorted n.keys
  pub paired : length n.values ≡ length n.keys

abbrev pub or_else : Option Bytes → Option Bytes → Option Bytes
or_else (some v) o = some v
or_else none o = o

pub value_of-append :
    (j : Bytes) (ks vs ks' vs' : List Bytes)
    → length vs ≡ length ks
    → value_of j (ks ++ ks') (vs ++ vs') ≡ or_else (value_of j ks vs) (value_of j ks' vs')
value_of-append j [] [] ks' vs' h = refl
value_of-append j [] (v ∷ vs) ks' vs' h = absurd (omega arith)
value_of-append j (k ∷ ks) [] ks' vs' h = absurd (omega arith)
value_of-append j (k ∷ ks) (v ∷ vs) ks' vs' h =
    ground (arith, value_of-append j ks vs ks' vs' (omega arith))

pub value_of-Below : (key : Bytes) (ks vs : List Bytes) → Below key ks → value_of key ks vs ≡ none
value_of-Below key [] vs h = refl
value_of-Below key (k ∷ ks) [] h = refl
value_of-Below key (k ∷ ks) (v ∷ vs) h =
    ground (arith, value_of-Below key ks vs h.1, ≺_flip k key h.0)

pub value_of-Above : (key : Bytes) (ks vs : List Bytes) → Above key ks → value_of key ks vs ≡ none
value_of-Above key [] vs h = refl
value_of-Above key (k ∷ ks) [] h = refl
value_of-Above key (k ∷ ks) (v ∷ vs) h = ground (arith, value_of-Above key ks vs h.1, h.0)

module _ (key val : Bytes) (ks vs ks' vs' : List Bytes) (paired : length vs ≡ length ks)
    (below : Below key ks) where
  -- A new cell between two parts of a leaf binds its key and no other.
  pub value_of-insert :
      (j : Bytes)
      → value_of j (ks ++ (key ∷ ks')) (vs ++ (val ∷ vs'))
        ≡ bind key val (λ i. value_of i (ks ++ ks') (vs ++ vs')) j
  value_of-insert j = ground (
    arith,
    value_of-append j ks vs (key ∷ ks') (val ∷ vs') paired,
    value_of-append j ks vs ks' vs' paired,
    value_of-Below key ks vs below,
    compare_bytes-same j key,
  )

  -- So does a cell whose value is replaced.
  pub value_of-replace :
      (old j : Bytes)
      → value_of j (ks ++ (key ∷ ks')) (vs ++ (val ∷ vs'))
        ≡ bind key val (λ i. value_of i (ks ++ (key ∷ ks')) (vs ++ (old ∷ vs'))) j
  value_of-replace old j = ground (
    arith,
    value_of-append j ks vs (key ∷ ks') (val ∷ vs') paired,
    value_of-append j ks vs (key ∷ ks') (old ∷ vs') paired,
    value_of-Below key ks vs below,
    compare_bytes-same j key,
  )
