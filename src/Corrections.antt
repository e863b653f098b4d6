-- ===== src/Corrections.antt =====
-- The schema correction budget (src/nare/corrections.py).
pub mod Charge
pub mod Message
pub mod Seen
pub mod Bound
