-- ===== src/Json/Dict.antt =====
-- A Python dict keyed by strings, in insertion order.
use nare.Prelude.{
  List, [], ◌∷◌, Option, none, some, Text, same, same_iff, ◌≡◌, refl, arith, if◌then◌else◌, has,
  ◌||◌,
}

abbrev pub Dict {ℓ} : Type ℓ → Type ℓ
Dict V = List (Text × V)

module _ {ℓ} {V : Type ℓ} where
  unfoldable pub lookup : Text → Dict V → Option V
  lookup k [] = none
  lookup k ((j, v) ∷ d) = if same j k then some v else lookup k d

  -- `d[k] = v`: a key that is there keeps its place.
  unfoldable pub insert : Text → V → Dict V → Dict V
  insert k v [] = (k, v) ∷ []
  insert k v ((j, w) ∷ d) = if same j k then (j, v) ∷ d else (j, w) ∷ insert k v d

  -- `d.values()`.
  unfoldable pub values : Dict V → List V
  values [] = []
  values ((k, v) ∷ d) = v ∷ values d

  unfoldable pub keys : Dict V → List Text
  keys [] = []
  keys ((k, v) ∷ d) = k ∷ keys d

  pub lookup-insert :
      (k j : Text) (v : V) (d : Dict V)
      → lookup j (insert k v d) ≡ (if same k j then some v else lookup j d)
  unfolding lookup insert
  lookup-insert k j v [] = refl
  lookup-insert k j v ((i, w) ∷ d) =
      ground (arith, same_iff k j, same_iff i k, same_iff i j, lookup-insert k j v d)

  pub has-keys-insert :
      (k j : Text) (v : V) (d : Dict V) → has j (keys (insert k v d)) ≡ (same j k || has j (keys d))
  unfolding insert keys has
  has-keys-insert k j v [] = refl
  has-keys-insert k j v ((i, w) ∷ d) =
      ground (arith, same_iff j k, same_iff i k, same_iff j i, has-keys-insert k j v d)
