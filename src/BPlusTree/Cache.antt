-- ===== src/BPlusTree/Cache.antt =====
-- pkg/bptree/bp_tree.go: nodes and the page cache: `loadNode`, `buildPage` and `assignFrame`.
-- The cache is pkg/buffer_manager, which the repository imports and does not hold: a parameter.
-- Pins are left out, and so is `ReleaseFrame`, which gives them back.
pub mod Writes
use baobab.Prelude.{
  ℕ, ◌<◌, ◌≡◌, ◌≢◌, Bool, true, false, not, if◌then◌else◌, Option, none, some, List, [], ◌∷◌,
}
use baobab.Prelude.Run.{Run, done, panics}
use baobab.Prelude.Bytes.{Bytes}
use baobab.Helpers.Lsn.{Checked, ok, failed}
use baobab.BPlusTree.Node.{Node}

-- What `GetMinPage` reads from a frame.
pub record MinPage : Type 0 where
  pub keys : List Bytes
  pub vals : List Bytes
  pub children : List ℕ
  pub page_id : ℕ
  pub right_sibling : ℕ
  pub left_sibling : ℕ

-- `none` is the error of `GetMinPage`.
pub record Frame : Type 0 where
  pub internal : Bool
  pub min_page : Option MinPage

-- The calls of the cache that the tree makes. A frame that a call takes is named by its page's id;
-- `none` is an error.
pub record Cache (S : Type 0) : Type 0 where
  pub get : S → ℕ → Option Frame
  -- CreateNewEntry(lsn, keys, values, children, isRoot)
  pub create_new_entry :
      S → Bytes → List Bytes → Option (List Bytes) → Option (List ℕ) → Bool → Option (ℕ × S)
  -- SyncFrame(frame, lsn, keys, values, children, rightSibling, leftSibling)
  pub sync_frame : S → ℕ → Bytes → List Bytes → List Bytes → List ℕ → ℕ → ℕ → Option S
  -- frame.UpdatePageLSN(lsn)
  pub update_page_lsn : S → ℕ → Bytes → Option S

-- `if err != nil { return err }` and `if err != nil { panic(err) }`.
abbrev pub or_fail {ℓ κ} :
    {A : Type ℓ} {B : Type κ} → Option A → (A → Run (Checked B)) → Run (Checked B)
or_fail none k = done failed
or_fail (some a) k = k a

abbrev pub or_panic {ℓ κ} : {A : Type ℓ} {B : Type κ} → Option A → (A → Run B) → Run B
or_panic none k = panics
or_panic (some a) k = k a

-- A page as `loadNode` makes a node of it.
abbrev pub node_of : Bool → MinPage → Node
node_of true p = record {
  keys = p.keys;
  children = p.children;
  leaf = false;
  values = [];
  left_sibling = p.left_sibling;
  right_sibling = p.right_sibling;
  page_id = p.page_id;
  lsn = [];
}
node_of false p = record {
  keys = p.keys;
  children = [];
  leaf = true;
  values = p.vals;
  left_sibling = p.left_sibling;
  right_sibling = p.right_sibling;
  page_id = p.page_id;
  lsn = [];
}

unfoldable pub load_node : Frame → Option Node
load_node fr = elim fr.min_page [ none ↦ none | some p ↦ some (node_of fr.internal p) ]

module _ {S : Type 0} (c : Cache S) where
  unfoldable pub build_page : S → ℕ → Option Node
  unfolding load_node
  build_page s page_id = elim (c.get s page_id) [ none ↦ none | some frame ↦ load_node frame ]

  -- The id is the new frame's key, which becomes the node's page id.
  unfoldable pub assign_frame : S → Node → Bytes → Bool → Option (ℕ × S)
  assign_frame s n lsn is_root =
      if n.leaf
      then c.create_new_entry s lsn n.keys (some n.values) none is_root
      else c.create_new_entry s lsn n.keys none (some n.children) is_root

  -- `SyncFrame` with the fields of a node.
  abbrev pub sync : S → ℕ → Bytes → Node → Option S
  sync s fr lsn n = c.sync_frame s fr lsn n.keys n.values n.children n.right_sibling n.left_sibling

-- What the tree relies on: a new entry takes an id above 0 that no page has, for a page of the kind
-- that was asked for; a sync of a page that is there succeeds and is what is read back; neither
-- touches other pages.
pub record Keeps {S : Type 0} (c : Cache S) : Type 0 where
  pub creates :
      (s : S) (lsn : Bytes) (keys : List Bytes) (vals : Option (List Bytes))
      (children : Option (List ℕ)) (is_root : Bool)
      → (id : ℕ) × (s' : S) × (c.create_new_entry s lsn keys vals children is_root ≡ some (id, s'))
        × (0 < id)
        × (c.get s id ≡ none)
        × ((p : MinPage) × (c.get s' id
              ≡ some (record {
                internal = elim children [ none ↦ false | some l ↦ true ];
                min_page = some p;
              })))
        × ((j : ℕ) → j ≢ id → c.get s' j ≡ c.get s j)
  pub syncs :
      (s : S) (id : ℕ) (fr : Frame) (lsn : Bytes) (keys vals : List Bytes) (children : List ℕ)
      (right left : ℕ)
      → c.get s id ≡ some fr
      → (s' : S) × (c.sync_frame s id lsn keys vals children right left ≡ some s')
        × (c.get s' id
            ≡ some (record fr {
              min_page = some (record {
                keys = keys;
                vals = vals;
                children = children;
                page_id = id;
                right_sibling = right;
                left_sibling = left;
              });
            }))
        × ((j : ℕ) → j ≢ id → c.get s' j ≡ c.get s j)
  pub updates_lsn :
      (s : S) (id : ℕ) (fr : Frame) (lsn : Bytes)
      → c.get s id ≡ some fr
      → (s' : S) × (c.update_page_lsn s id lsn ≡ some s') × ((j : ℕ) → c.get s' j ≡ c.get s j)
