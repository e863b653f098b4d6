-- ===== src/Repetition.antt =====
-- Degenerate output (src/nare/repetition.py).
pub mod Rule
pub mod Periodic
pub mod Tail
pub mod Watch
