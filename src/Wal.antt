-- ===== src/Wal.antt =====
-- pkg/wal: the write-ahead log. The lock and the background flusher are left out.
pub mod Records
pub mod Writer
pub mod Paging
pub mod Consistent
pub mod Kept
pub mod PageEnd
pub mod Restart
