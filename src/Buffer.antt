-- ===== src/Buffer.antt =====
-- pkg/buffermanager: the entries of the buffer pool, the clock that picks victims, and the segments.
pub mod Entry
pub mod Clock
pub mod Segments
