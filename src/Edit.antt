-- ===== src/Edit.antt =====
-- Replacing one occurrence in a file: the `edit` tool (src/nare/tools.py).
pub mod Replace
pub mod Once
