-- ===== src/Reads.antt =====
-- Read requirements (src/nare/reads.py).
pub mod Pointer
pub mod RoundTrip
pub mod Cited
pub mod Holds
pub mod Found
pub mod Required
pub mod Met
