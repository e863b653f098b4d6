-- ===== src/Compact.antt =====
-- Eliding old content when the context is nearly full (src/nare/compact.py).
pub mod Stub
pub mod Elide
pub mod Keeps
pub mod Recent
