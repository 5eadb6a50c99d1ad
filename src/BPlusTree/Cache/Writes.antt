-- ===== src/BPlusTree/Cache/Writes.antt =====
-- Writes to the cache, as changes of the nodes that `buildPage` gives.
use baobab.Prelude.{
  ℕ, ◌<◌, ◌≡◌, ◌≢◌, sym, Bool-cases, Option-cases, inl, inr, ap, ◌∙◌, arith, Bool, true, false,
  Option, none, some, [], if◌then◌else◌,
}
use baobab.Prelude.Bytes.{Bytes}
use baobab.BPlusTree.Node.{Node}
use baobab.BPlusTree.Cache.{
  Cache, Keeps, Frame, MinPage, build_page, assign_frame, load_node, node_of, sync,
}

-- A node as it is read back after it was synced to the page `id`.
abbrev pub loaded : ℕ → Node → Node
loaded id n = record {
  keys = n.keys;
  children = if n.leaf then [] else n.children;
  leaf = n.leaf;
  values = if n.leaf then n.values else [];
  left_sibling = n.left_sibling;
  right_sibling = n.right_sibling;
  page_id = id;
  lsn = [];
}

pub some-injective : {A : Type 0} {a b : A} → some a ≡ some b → a ≡ b
some-injective h = cc

pub none-not_some : {A : Type 0} {a : A} → ¬ (none ≡ some a)
none-not_some h = cc

-- `buildPage` from what the cache gives.
abbrev node_in : Option Frame → Option Node
unfolding load_node
node_in o = elim o [ none ↦ none | some f ↦ load_node f ]

abbrev node_at : Bool → Option MinPage → Option Node
node_at internal o = elim o [ none ↦ none | some p ↦ some (node_of internal p) ]

pub read_frame :
    {S : Type 0} (c : Cache S) (s : S) (id : ℕ) {n₀ : Node}
    → build_page c s id ≡ some n₀
    → (fr : Frame) × (p : MinPage) × (c.get s id ≡ some fr)
      × (fr.min_page ≡ some p)
      × (node_of fr.internal p ≡ n₀)
unfolding build_page load_node
read_frame c s id {n₀} h = elim (Option-cases (c.get s id)) [
  | inl e ↦ absurd (none-not_some (ap node_in (sym e) ∙ h))
  | inr (fr, e) ↦
      let loads : load_node fr ≡ some n₀ = ap node_in (sym e) ∙ h in
      elim (Option-cases fr.min_page) [
        | inl q ↦ absurd (none-not_some (ap (node_at fr.internal) (sym q) ∙ loads))
        | inr (p, q) ↦ (fr, p, e, q, some-injective (ap (node_at fr.internal) (sym q) ∙ loads))
      ]
]

-- A page is read as before where the cache gives the same frame.
pub same_frame :
    {S : Type 0} (c : Cache S) (s s' : S) (j : ℕ)
    → c.get s' j ≡ c.get s j
    → build_page c s' j ≡ build_page c s j
unfolding build_page load_node
same_frame c s s' j h = ap node_in h

load_synced :
    (internal : Bool) (p : MinPage) (n : Node) (id : ℕ)
    → (node_of internal p).leaf ≡ n.leaf
    → node_of internal (record {
      keys = n.keys;
      vals = n.values;
      children = n.children;
      page_id = id;
      right_sibling = n.right_sibling;
      left_sibling = n.left_sibling;
    })
      ≡ loaded id n
load_synced true p n id kind = ground arith
load_synced false p n id kind = ground arith

module _ {S : Type 0} (c : Cache S) (k : Keeps c) where
  -- The one page that a write changes.
  pub record Written (s s' : S) (id : ℕ) (n : Node) : Type 0 where
    pub here : build_page c s' id ≡ some (loaded id n)
    pub elsewhere : (j : ℕ) → j ≢ id → build_page c s' j ≡ build_page c s j

  pub record Created (s s' : S) (id : ℕ) (n : Node) : Type 0 where
    pub positive : 0 < id
    pub fresh : build_page c s id ≡ none
    pub made : (n₀ : Node) × (build_page c s' id ≡ some n₀) × (n₀.leaf ≡ n.leaf)
    pub elsewhere : (j : ℕ) → j ≢ id → build_page c s' j ≡ build_page c s j

  pub sync-Written :
      (s : S) (id : ℕ) (lsn : Bytes) (n : Node) {n₀ : Node}
      → build_page c s id ≡ some n₀
      → n₀.leaf ≡ n.leaf
      → (s' : S) × (sync c s id lsn n ≡ some s') × Written s s' id n
  unfolding build_page load_node
  sync-Written s id lsn n {n₀} h leaf =
      let (fr, p, at_id, page, loads) = read_frame c s id h in
      let (s', runs, here, elsewhere) =
        k.syncs s id fr lsn n.keys n.values n.children n.right_sibling n.left_sibling at_id in
      let kind : (node_of fr.internal p).leaf ≡ n.leaf = ap (λ (x : Node). x.leaf) loads ∙ leaf in
      (
        s',
        runs,
        record {
          here = ap node_in here ∙ ap some (load_synced fr.internal p n id kind);
          elsewhere = λ j ne. ap node_in (elsewhere j ne);
        },
      )

  pub assign_frame-Created :
      (s : S) (n : Node) (lsn : Bytes) (is_root : Bool)
      → (id : ℕ) × (s' : S) × (assign_frame c s n lsn is_root ≡ some (id, s')) × Created s s' id n
  unfolding build_page assign_frame load_node
  assign_frame-Created s n lsn is_root = elim (Bool-cases n.leaf) [
    | inl leaf ↦
        let (id, s', runs, positive, unused, (p, made), elsewhere) =
          k.creates s lsn n.keys (some n.values) none is_root in
        (
          id,
          s',
          rw leaf runs,
          record {
            positive = positive;
            fresh = ap node_in unused;
            made = (node_of false p, ap node_in made, sym leaf);
            elsewhere = λ j ne. ap node_in (elsewhere j ne);
          },
        )
    | inr internal ↦
        let (id, s', runs, positive, unused, (p, made), elsewhere) =
          k.creates s lsn n.keys none (some n.children) is_root in
        (
          id,
          s',
          rw internal runs,
          record {
            positive = positive;
            fresh = ap node_in unused;
            made = (node_of true p, ap node_in made, sym internal);
            elsewhere = λ j ne. ap node_in (elsewhere j ne);
          },
        )
  ]
