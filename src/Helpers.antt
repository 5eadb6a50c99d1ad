-- ===== src/Helpers.antt =====
-- pkg/helpers: searching and editing key slices, flag bits and log sequence numbers.
pub mod Search
pub mod Slices
pub mod Flags
pub mod Lsn
