-- ===== src/Step.antt =====
-- One turn of a run: `step` (src/nare/loop.py).
pub mod Reply
pub mod Calls
pub mod Answer
pub mod Turn
pub mod Frames
pub mod Answers
pub mod Speaks
pub mod Ready
pub mod Keeps
pub mod Kept
pub mod Closed
pub mod Counts
