-- ===== src/BPlusTree.antt =====
-- pkg/bptree: the nodes of the B+ tree and the operations on them.
pub mod Node
pub mod Leaf
pub mod Search
pub mod Siblings
pub mod Stack
pub mod Cache
pub mod Insert
pub mod Whole
