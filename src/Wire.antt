-- ===== src/Wire.antt =====
-- What a request sends of a transcript (src/nare/transport/anthropic.py).
pub mod Messages
pub mod Whole
