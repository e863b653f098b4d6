-- ===== src/Tests/Settling.antt =====
-- An object of two keys, and one that repeats a key (src/nare/schema.py).
use nare.Prelude.{◌≡◌, ◌↔◌, refl, [], ◌∷◌, codes, same, has}
use nare.Json.Value.{Value, null, obj, end, field}
use nare.Schema.Pairs.{duplicate_keys, settled, settle, plain_value, has_field, set_field}
use nare.Schema.Settled.{Unrepeated, settle_iff}

abbrev two_keys : Value
two_keys = obj (field (codes "a") null (field (codes "b") null end))

abbrev one_key : Value
one_key = obj (field (codes "a") null (field (codes "a") two_keys end))

settle_iff_example :
    (settle two_keys ≡ settled two_keys) ↔ ((two_keys ≡ two_keys) × Unrepeated two_keys)
settle_iff_example = settle_iff two_keys two_keys

one_key-duplicate : settle one_key ≡ duplicate_keys (([], codes "a") ∷ [])
unfolding settle plain_value has_field set_field same has
one_key-duplicate = refl
