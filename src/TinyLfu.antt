-- ===== src/TinyLfu.antt =====
-- internal/tinylfu: the frequency filter.
pub mod Sketch
