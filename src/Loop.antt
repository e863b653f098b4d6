-- ===== src/Loop.antt =====
-- What the loop decides between two requests (src/nare/loop.py).
pub mod Hold
pub mod Owed
pub mod Nudge
pub mod Wrote
pub mod Budget
pub mod Exhausted
