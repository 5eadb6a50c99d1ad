-- ===== src/Tests.antt =====
-- The theorems at concrete inputs, and runs of the definitions.
mod Helpers
mod BPlusTree
mod Whole
mod Range
mod Pager
mod Buffer
mod Segments
mod Wal
mod TinyLfu
