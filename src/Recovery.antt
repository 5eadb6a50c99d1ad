-- ===== src/Recovery.antt =====
-- pkg/recovery/recovery.go: the walk over the log file.
pub mod Reader
pub mod RoundTrip
pub mod Replay
