-- ===== src/Pager.antt =====
-- pkg/pager: pages, the free list, and the pager that issues page ids.
pub mod Page
pub mod FreeList
pub mod Ids
pub mod Metadata
