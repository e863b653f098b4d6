-- ===== src/Rules.antt =====
-- Bash command rules (src/nare/bash_rules.py).
pub mod Pattern
pub mod Deny
pub mod Decide
pub mod Matching
pub mod Safe
pub mod Clear
