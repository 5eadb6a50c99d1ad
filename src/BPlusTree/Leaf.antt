-- ===== src/BPlusTree/Leaf.antt =====
-- pkg/bptree/bp_tree.go: what `insert`, `search` and `deleteValue` do inside one leaf.
pub mod Entries
pub mod Logs
pub mod Around
pub mod Put
pub mod Remove
use baobab.Prelude.{
  ℕ, suc, ◌+◌, List, [], ◌∷◌, ◌++◌, take, drop, set, length, leb, if◌then◌else◌, ◌&&◌,
}
use baobab.Prelude.Run.{Run, done, ◌>>=◌, index, slice_from}
use baobab.Prelude.Bytes.{Bytes, less, same, greater, compare_bytes}
use baobab.Helpers.Search.{insert_binary_search}
use baobab.Helpers.Slices.{insert_to_list}
use baobab.Wal.Writer.{Wal, add_put_log, add_del_log}
use baobab.BPlusTree.Node.{Node}
use baobab.BPlusTree.Cache.{or_panic}

-- The operation is logged unless the caller brings its LSN.
unfoldable pub log_put : Wal → Bytes → ℕ → Bytes → Bytes → Run (Bytes × Wal)
log_put w lsn page_id key val =
    if leb (length lsn) 0
    then (or_panic (add_put_log w page_id key val) λ logged. done logged)
    else done (lsn, w)

unfoldable pub log_del : Wal → Bytes → ℕ → Bytes → Run (Bytes × Wal)
log_del w lsn page_id key =
    if leb (length lsn) 0
    then (or_panic (add_del_log w page_id key) λ logged. done logged)
    else done (lsn, w)

-- The edit of a leaf at the index that the search gave.
unfoldable pub put_at : Node → ℕ → Bytes → Bytes → Run Node
put_at n idx key val = index n.keys idx λ k_at_idx. elim (compare_bytes key k_at_idx) [
  | less ↦
      done (record n {
        keys = insert_to_list n.keys idx key;
        values = insert_to_list n.values idx val;
      })
  | same ↦
      index n.values idx
        λ _. done (record n { keys = set n.keys idx key; values = set n.values idx val })
  | greater ↦ done (record n {
    keys = insert_to_list n.keys (idx + 1) key;
    values = insert_to_list n.values (idx + 1) val;
  })
]

-- `insert` on a leaf, up to the first sync or the check for overflow, with the log afterwards.
unfoldable pub put : Wal → Bytes → Node → Bytes → Bytes → Run (Node × Wal)
unfolding put_at insert_binary_search log_put
put w lsn n key val =
    if leb (length n.keys) 0 && leb (length n.values) 0
    then (log_put w lsn n.page_id key val >>= λ logged.
        done (record n { keys = key ∷ []; values = val ∷ []; lsn = logged.0 }, logged.1))
    else (insert_binary_search n.keys key 0 >>= λ idx. index n.keys idx λ _.
        log_put w lsn n.page_id key val >>= λ logged.
        put_at (record n { lsn = logged.0 }) idx key val >>= λ n'. done (n', logged.1))

-- What `deleteValue` does in a leaf before it looks for underflow: -1 for a key that is not there.
pub data Removal : Type 0 where
  absent : Removal
  removed : Node → Removal

abbrev pub remove_at : Wal → Bytes → Node → Bytes → ℕ → Run (Removal × Wal)
remove_at w lsn n key idx = index n.keys idx λ k_at_idx. elim (compare_bytes key k_at_idx) [
  | less ↦ done (absent, w)
  | greater ↦ done (absent, w)
  | same ↦ log_del w lsn n.page_id key >>= λ logged. slice_from n.keys (suc idx) λ later_keys.
      slice_from n.values (suc idx) λ later_values. done (
        removed (record n {
          keys = take idx n.keys ++ later_keys;
          values = take idx n.values ++ later_values;
          lsn = logged.0;
        }),
        logged.1,
      )
]

unfoldable pub remove : Wal → Bytes → Node → Bytes → Run (Removal × Wal)
unfolding insert_binary_search log_del
remove w lsn n key =
    if leb (length n.keys) 0
    then done (absent, w)
    else (insert_binary_search n.keys key 0 >>= λ idx. remove_at w lsn n key idx)
