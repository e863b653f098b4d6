-- ===== src/Json/Value.antt =====
-- A JSON value. An int is exact; a finite float is a whole number over a power of two.
use nare.Prelude.{ℕ, Bool, Text, List, [], ◌∷◌}

-- `negsuc n` is -(n + 1).
pub data ℤ : Type 0 where
  pos : ℕ → ℤ
  negsuc : ℕ → ℤ

mutual
  pub data Value : Type 0 where
    null : Value
    bool : Bool → Value
    int : ℤ → Value
    float : ℤ → ℕ → Value
    str : Text → Value
    arr : Items → Value
    obj : Fields → Value

  pub data Items : Type 0 where
    nil : Items
    cons : Value → Items → Items

  -- In the order the keys were inserted.
  pub data Fields : Type 0 where
    end : Fields
    field : Text → Value → Fields → Fields

-- The elements of an array, and the values of an object, as lists.
unfoldable pub items_list : Items → List Value
items_list nil = []
items_list (cons v vs) = v ∷ items_list vs

unfoldable pub values_list : Fields → List Value
values_list end = []
values_list (field k v fs) = v ∷ values_list fs
