-- ===== src/Tests.antt =====
-- The theorems applied at concrete inputs.
pub mod Rules
pub mod Retries
pub mod Held
pub mod Ceilings
pub mod Paging
pub mod Streams
pub mod Resuming
pub mod Reading
pub mod Correcting
pub mod Compacting
pub mod Editing
pub mod Settling
pub mod Nudging
pub mod Stepping
pub mod Dispatching
pub mod Wiring
