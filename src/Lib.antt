-- ===== src/Lib.antt =====
-- Baobab, a key-value store: a B+ tree of leaf-linked nodes over a pager, a buffer pool and a
-- write-ahead log.
--
-- A key is inserted, found or deleted by walking from the root to a leaf, with the path on a stack
-- (pkg/bptree). Nodes live in pages of 8192 bytes whose ids the pager hands out and takes back
-- (pkg/pager). Pages are held in a pool of entries, from which a clock hand picks the next victim
-- (pkg/buffermanager), and a frequency filter estimates how often a page was asked for
-- (internal/tinylfu). Every change is first a log in the write-ahead log (pkg/wal), and at a start
-- recovery walks over the log and applies it to the tree again (pkg/recovery).
--
-- Prelude has what all parts share: tests on numbers, indexed lists, byte strings with
-- `bytes.Compare` and little-endian words, sorted key lists, writes into a buffer, uint32 arithmetic,
-- the integer of an int64, and the type `Run` of how code ends: with a value, by a panic, or out of
-- the model's fuel.
-- Helpers models pkg/helpers: `InsertBinarySearch`, the slice edits, the flags and the LSNs.
-- BPlusTree/Node models a node, `createNode` and `split`; BPlusTree/Leaf what `insert` and
-- `deleteValue` do inside a leaf, with its log; BPlusTree/Search `search`, `rangeSearch` and the
-- choice of the child;
-- BPlusTree/Siblings what `handleLeafUnderflow` does with two leaves; BPlusTree/Stack the path.
-- BPlusTree/Cache is the interface of the page cache, whose package is not in the repository, with
-- `loadNode`, `buildPage` and `assignFrame`; BPlusTree/Insert models `insert`, its child Propagate the
-- propagation of splits and its child Value `InsertValue`; BPlusTree/Whole models `Get`, its
-- child Range `RangeSearch`, and the other children prove what the pages of a tree stand for.
-- Pager/Page models a page's header; Pager/FreeList and Pager/Ids the ids and the dead pages, with the
-- file that keeps the dead ones;
-- Pager/Metadata the page that keeps the pager's numbers. Buffer/Entry models an entry of the pool and
-- Buffer/Clock the eviction, Buffer/Segments the three segments over it (`promoteToProtected`,
-- `evictWindow`, `getFreeFrame`). Wal/Records models the bytes of logs and checkpoints, Wal/Writer the LSNs,
-- the buffer and the flush. Recovery/Reader models the reading of logs and the walk; the tree that it
-- calls is a record of two operations. TinyLfu/Sketch models double hashing and the count-min sketch.
-- Under each of these stand the modules that prove something of it. Tests has the theorems at concrete
-- inputs.
--
-- Numbers are natural numbers; where the source's words can wrap around, `% 2 ^ 32` or `% 2 ^ 64` is
-- written out. Slices are lists, errors are `none` or a constructor, and a loop is structural recursion
-- except for these: the binary search runs on one unit of fuel for each cell and one more, which is
-- enough since each call halves the slice, and the walk of recovery on one unit for each log, since a
-- damaged log of size 0 stops it for good in the source too. The walk from the root and the
-- propagation of splits run on one unit for each level of the tree and two more; `RangeSearch` also
-- spends one on each sibling that it scans. An eviction tries `max_loop` rounds as in the source.
--
-- Not modelled: locks, latches and other threads (each operation runs alone), files, channels and the
-- logger, the page cache that the tree calls (its package is not in the repository: a record of
-- operations, without pins), the loop of `DeleteValue` over pages, the
-- syncs of the balancing of leaves, the balancing of internal nodes, the shards of the buffer pool and
-- the dirty page list. The hash function of the sketch is an argument, and so are its sizes,
-- which the source computes in floating point.
pub mod Prelude
pub mod Helpers
pub mod BPlusTree
pub mod Pager
pub mod Buffer
pub mod Wal
pub mod Recovery
pub mod TinyLfu
pub mod Tests
