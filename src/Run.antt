-- ===== src/Run.antt =====
-- A whole run: `_run` (src/nare/loop.py).
pub mod Prefix
pub mod Setup
pub mod Turns
pub mod Follows
pub mod Ends
pub mod Total
pub mod Closed
pub mod Kept
