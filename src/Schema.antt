-- ===== src/Schema.antt =====
-- Answers as data (src/nare/schema.py).
pub mod Pairs
pub mod Settled
