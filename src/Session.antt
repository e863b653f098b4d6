-- ===== src/Session.antt =====
-- The session and its transcript (src/nare/session.py).
pub mod Types
pub mod Thinking
pub mod Reopen
pub mod Continue
pub mod Pairing
pub mod Reopened
