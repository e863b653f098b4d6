-- ===== src/Json.antt =====
-- JSON values as Python holds them after `json.loads`, and dictionaries keyed by strings.
pub mod Value
pub mod Dict
