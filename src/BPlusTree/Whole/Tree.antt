-- ===== src/BPlusTree/Whole/Tree.antt =====
-- What it means that a page is the root of a tree for a map.
use baobab.Prelude.{
  ℕ, zero, suc, ◌-◌, ◌≤◌, ◌<◌, ◌≡◌, ◌≢◌, refl, sym, ap, ap₂, subst, ◌∙◌, arith, true, false, Option,
  none, some, List, [], ◌∷◌, ◌++◌, length, All,
}
use baobab.Prelude.Bytes.{Bytes, compare_bytes, less, same, greater, ◌≺◌}
use baobab.Prelude.Sorted.{Above, IsSorted, Above-trans}
use baobab.Pager.Ids.Fresh.{times, times-append}
use baobab.BPlusTree.Node.{Node, order}
use baobab.BPlusTree.Leaf.Entries.{lookup, value_of, IsLeaf}
use baobab.BPlusTree.Search.Follow.{IsInternal}
use baobab.BPlusTree.Cache.{Cache, build_page}

abbrev pub Map : Type 0
Map = Bytes → Option Bytes

-- `none` is no bound.
abbrev pub Bound : Type 0
Bound = Option Bytes

abbrev pub NotUnder : Bound → Bytes → Type 0
NotUnder none k = Unit
NotUnder (some l) k = ¬ (k ≺ l)

abbrev pub Past : Bound → Bytes → Type 0
Past none k = Unit
Past (some l) k = l ≺ k

abbrev pub Under : Bound → Bytes → Type 0
Under none k = Unit
Under (some h) k = k ≺ h

-- The map of two trees with a separator between them.
abbrev pub choose : Bytes → Map → Map → Map
choose k ml mr j = elim (compare_bytes j k) [ less ↦ ml j | same ↦ mr j | greater ↦ mr j ]

pub record Joins (left_is right_are : Map → List ℕ → Type 0) (lo hi : Bound) (k : Bytes) (m : Map)
    (ids : List ℕ) : Type 0 where
  pub left_map : Map
  pub right_map : Map
  pub left_ids : List ℕ
  pub right_ids : List ℕ
  pub left : left_is left_map left_ids
  pub right : right_are right_map right_ids
  pub past : Past lo k
  pub under : Under hi k
  pub joined : m ≡ choose k left_map right_map
  pub both_ids : ids ≡ left_ids ++ right_ids

-- A predicate on the trees of one height: bounds, root page, map, and the ids of the pages.
abbrev pub Shape : Type 1
Shape = Bound → Bound → ℕ → Map → List ℕ → Type 0

-- Children with the separators between them.
unfoldable pub Kids : Shape → Bound → Bound → List Bytes → List ℕ → Map → List ℕ → Type 0
Kids P lo hi [] (c ∷ []) m ids = P lo hi c m ids
Kids P lo hi [] [] m ids = ⊥
Kids P lo hi [] (c ∷ d ∷ cs) m ids = ⊥
Kids P lo hi (k ∷ ks) [] m ids = ⊥
Kids P lo hi (k ∷ ks) (c ∷ cs) m ids =
    Joins (P lo (some k) c) (Kids P (some k) hi ks cs) lo hi k m ids

module _ {S : Type 0} (c : Cache S) where
  pub record LeafPage (s : S) (lo hi : Bound) (id : ℕ) (m : Map) (ids : List ℕ) : Type 0 where
    pub node : Node
    pub stored : build_page c s id ≡ some node
    pub is_leaf : node.leaf ≡ true
    pub shape : IsLeaf node
    pub some_key : 0 < length node.keys
    pub fits : length node.keys ≤ order
    pub from : All (NotUnder lo) node.keys
    pub below : All (Under hi) node.keys
    pub binds : m ≡ lookup node
    pub one_id : ids ≡ id ∷ []

  pub record InnerPage (P : Shape) (s : S) (lo hi : Bound) (id : ℕ) (m : Map) (ids : List ℕ)
      : Type 0 where
    pub node : Node
    pub stored : build_page c s id ≡ some node
    pub is_internal : node.leaf ≡ false
    pub some_key : 0 < length node.keys
    pub fits : length node.keys ≤ order - 1
    pub kid_ids : List ℕ
    pub kids : Kids P lo hi node.keys node.children m kid_ids
    pub own_id : ids ≡ id ∷ kid_ids

  -- Trees of one height: all leaves are on one level.
  unfoldable pub Tree : ℕ → S → Shape
  Tree zero s lo hi id m ids = LeafPage s lo hi id m ids
  Tree (suc height) s lo hi id m ids = InnerPage (Tree height s) s lo hi id m ids

  -- A page stands under its own positive id, and its right sibling is another page, or none.
  pub record PageSound (s : S) (a : ℕ) (n : Node) : Type 0 where
    pub positive : 0 < a
    pub own_page : n.page_id ≡ a
    pub right_apart : n.right_sibling ≢ a
    pub right_there : 0 < n.right_sibling → (r : Node) × (build_page c s n.right_sibling ≡ some r)

  abbrev pub Sound : S → Type 0
  Sound s = (a : ℕ) (n : Node) → build_page c s a ≡ some n → PageSound s a n

  -- A page whose content stays, but for the pointer to the left.
  pub record SameContent (n n' : Node) : Type 0 where
    pub same_leaf : n'.leaf ≡ n.leaf
    pub same_keys : n'.keys ≡ n.keys
    pub same_right : n'.right_sibling ≡ n.right_sibling
    pub same_id : n'.page_id ≡ n.page_id
    pub same_values : n.leaf ≡ true → n'.values ≡ n.values
    pub same_children : n.leaf ≡ false → n'.children ≡ n.children

  abbrev pub Kept : S → S → ℕ → Type 0
  Kept s s' a =
      (n : Node)
      → build_page c s a ≡ some n
      → (n' : Node) × (build_page c s' a ≡ some n') × SameContent n n'

pub times-left : (a : ℕ) (xs ys : List ℕ) → times a xs ≤ times a (xs ++ ys)
times-left a xs ys = omega (arith, times-append a xs ys)

pub times-right : (a : ℕ) (xs ys : List ℕ) → times a ys ≤ times a (xs ++ ys)
times-right a xs ys = omega (arith, times-append a xs ys)

-- Children move from one predicate to another when each does.
pub Kids-impl :
    (P Q : Shape) (lo hi : Bound) (ks : List Bytes) (cs : List ℕ) (m : Map) (ids : List ℕ)
    → ((l h : Bound) (c : ℕ) (n : Map) (is : List ℕ)
        → ((a : ℕ) → times a is ≤ times a ids)
        → P l h c n is
        → Q l h c n is)
    → Kids P lo hi ks cs m ids
    → Kids Q lo hi ks cs m ids
unfolding Kids
Kids-impl P Q lo hi [] (c ∷ []) m ids f t = f lo hi c m ids (λ a. omega arith) t
Kids-impl P Q lo hi [] [] m ids f t = elim t [ ]
Kids-impl P Q lo hi [] (c ∷ d ∷ cs) m ids f t = elim t [ ]
Kids-impl P Q lo hi (k ∷ ks) [] m ids f t = elim t [ ]
Kids-impl P Q lo hi (k ∷ ks) (c ∷ cs) m ids f t = record {
  left_map = t.left_map;
  right_map = t.right_map;
  left_ids = t.left_ids;
  right_ids = t.right_ids;
  left =
      f lo (some k) c t.left_map t.left_ids
        (λ a.
          subst (λ l. times a t.left_ids ≤ times a l) (sym t.both_ids)
            (times-left a t.left_ids t.right_ids))
        t.left;
  right =
      Kids-impl P Q (some k) hi ks cs t.right_map t.right_ids
        (λ l h d n is part. f l h d n is (λ a.
          omega (arith, part a, ap (times a) t.both_ids, times-right a t.left_ids t.right_ids)))
        t.right;
  past = t.past;
  under = t.under;
  joined = t.joined;
  both_ids = t.both_ids;
}

-- Separators ascend, and there is one child more.
pub Kids-Above :
    (P : Shape) (l : Bytes) (hi : Bound) (ks : List Bytes) (cs : List ℕ) (m : Map) (ids : List ℕ)
    → Kids P (some l) hi ks cs m ids
    → Above l ks
unfolding Kids
Kids-Above P l hi [] cs m ids t = tt
Kids-Above P l hi (k ∷ ks) [] m ids t = elim t [ ]
Kids-Above P l hi (k ∷ ks) (c ∷ cs) m ids t =
    (t.past, Above-trans l k ks t.past (Kids-Above P k hi ks cs _ _ t.right))

pub Kids-IsSorted :
    (P : Shape) (lo hi : Bound) (ks : List Bytes) (cs : List ℕ) (m : Map) (ids : List ℕ)
    → Kids P lo hi ks cs m ids
    → IsSorted ks
unfolding Kids
Kids-IsSorted P lo hi [] cs m ids t = tt
Kids-IsSorted P lo hi (k ∷ ks) [] m ids t = elim t [ ]
Kids-IsSorted P lo hi (k ∷ ks) (c ∷ cs) m ids t =
    (Kids-Above P k hi ks cs _ _ t.right, Kids-IsSorted P (some k) hi ks cs _ _ t.right)

pub Kids-one_more :
    (P : Shape) (lo hi : Bound) (ks : List Bytes) (cs : List ℕ) (m : Map) (ids : List ℕ)
    → Kids P lo hi ks cs m ids
    → length cs ≡ suc (length ks)
unfolding Kids
Kids-one_more P lo hi [] [] m ids t = elim t [ ]
Kids-one_more P lo hi [] (c ∷ []) m ids t = refl
Kids-one_more P lo hi [] (c ∷ d ∷ cs) m ids t = elim t [ ]
Kids-one_more P lo hi (k ∷ ks) [] m ids t = elim t [ ]
Kids-one_more P lo hi (k ∷ ks) (c ∷ cs) m ids t =
    ap suc (Kids-one_more P (some k) hi ks cs _ _ t.right)

module _ {S : Type 0} (c : Cache S) where
  pub InnerPage-IsInternal :
      {P : Shape} {s : S} {lo hi : Bound} {id : ℕ} {m : Map} {ids : List ℕ}
      → (t : InnerPage c P s lo hi id m ids) → IsInternal t.node
  InnerPage-IsInternal {P} t = record {
    sorted = Kids-IsSorted P _ _ t.node.keys t.node.children _ _ t.kids;
    some_key = t.some_key;
    one_more = Kids-one_more P _ _ t.node.keys t.node.children _ _ t.kids;
  }

  -- A tree stays where its pages are kept.
  pub Tree-Kept :
      (height : ℕ) (s s' : S) (lo hi : Bound) (id : ℕ) (m : Map) (ids : List ℕ)
      → ((a : ℕ) → 0 < times a ids → Kept c s s' a)
      → Tree c height s lo hi id m ids
      → Tree c height s' lo hi id m ids
  unfolding Tree
  Tree-Kept zero s s' lo hi id m ids kept t =
      let (n, stored, same_as) = kept id (ground (arith, ap (times id) t.one_id)) t.node t.stored in
      let values = same_as.same_values t.is_leaf in
      record {
        node = n;
        stored = stored;
        is_leaf = same_as.same_leaf ∙ t.is_leaf;
        shape = record {
          sorted = subst IsSorted (sym same_as.same_keys) t.shape.sorted;
          paired = rw (values, same_as.same_keys) t.shape.paired;
        };
        some_key = rw same_as.same_keys t.some_key;
        fits = rw same_as.same_keys t.fits;
        from = rw same_as.same_keys t.from;
        below = rw same_as.same_keys t.below;
        binds = t.binds ∙ ap₂ (λ ks vs j. value_of j ks vs) (sym same_as.same_keys) (sym values);
        one_id = t.one_id;
      }
  Tree-Kept (suc height) s s' lo hi id m ids kept t =
      let (n, stored, same_as) = kept id (ground (arith, ap (times id) t.own_id)) t.node t.stored in
      let children = same_as.same_children t.is_internal in
      let kids : Kids (Tree c height s') lo hi t.node.keys t.node.children m t.kid_ids =
        Kids-impl (Tree c height s) (Tree c height s') lo hi t.node.keys t.node.children m t.kid_ids
          (λ l h d n' is part sub.
            Tree-Kept height s s' l h d n' is
              (λ a there. kept a (ground (arith, ap (times a) t.own_id, part a))) sub)
          t.kids in
      record {
        node = n;
        stored = stored;
        is_internal = same_as.same_leaf ∙ t.is_internal;
        some_key = rw same_as.same_keys t.some_key;
        fits = rw same_as.same_keys t.fits;
        kid_ids = t.kid_ids;
        kids = rw (same_as.same_keys, children) kids;
        own_id = t.own_id;
      }
