-- ===== src/BPlusTree/Whole.antt =====
-- pkg/bptree/bp_tree.go: `Get`, from the root to a leaf. Frames have no pins here, so `ReleaseFrame` with
-- its errors is left out.
pub mod Tree
pub mod Kids
pub mod Spot
pub mod Steps
pub mod Halving
pub mod Shapes
pub mod Grown
pub mod LeafStep
pub mod LeafInsert
pub mod Settle
pub mod Parent
pub mod Follows
pub mod Grow
pub mod Root
pub mod Inserts
pub mod Calls
pub mod Reads
pub mod Range
use baobab.Prelude.{ℕ, zero, suc, ◌==◌, if◌then◌else◌, Bool, true, false, Option, none, some, []}
use baobab.Prelude.Run.{Run, done, stuck, ◌>>=◌}
use baobab.Prelude.Bytes.{Bytes}
use baobab.Helpers.Lsn.{Checked, ok, failed}
use baobab.BPlusTree.Search.{Answer, found, key_not_found, next_node, search}
use baobab.BPlusTree.Cache.{Cache, build_page, or_fail}
use baobab.BPlusTree.Insert.{BTree}

-- What `Get` returns: a value, an error of the cache, or one of its own errors.
pub data Got : Type 0 where
  value : Bytes → Got
  not_found : Got
  not_initialized : Got
  cache_error : Got

module _ {S : Type 0} (c : Cache S) where
  -- `for nodePageId > 0`; a loop that ends at once would return the nil value.
  unfoldable pub get_from : ℕ → S → Bytes → ℕ → Bytes → Run Got
  get_from zero s key node_page_id val = stuck
  get_from (suc fuel) s key node_page_id val = elim (node_page_id == 0) [
    | true ↦ done (value val)
    | false ↦ elim (build_page c s node_page_id) [
      | none ↦ done cache_error
      | some pge ↦ search pge key >>= λ answer. elim answer [
        | found v ↦ get_from fuel s key 0 v
        | key_not_found ↦ done not_found
        | next_node child ↦ get_from fuel s key child val
      ]
    ]
  ]

  unfoldable pub get : ℕ → BTree S → Bytes → Run Got
  get fuel bt key =
      if bt.root == 0 then done not_initialized else get_from fuel bt.cache key bt.root []
