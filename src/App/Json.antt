-- ===== src/App/Json.antt =====
-- The JSON values that the handlers build.
use cloud_storage.Common.{ℕ, Bool, List, [], ◌∷◌, Bytes}
use cloud_storage.App.Text.{ℤ, pos}

mutual
  pub data Json : Type 0 where
    null : Json
    boolean : Bool → Json
    number : ℤ → Json
    text : Bytes → Json
    array : Items → Json
    object : Fields → Json

  pub data Items : Type 0 where
    nil : Items
    cons : Json → Items → Items

  pub data Fields : Type 0 where
    end : Fields
    field : Bytes → Json → Fields → Fields

abbrev pub fields : List (Bytes × Json) → Fields
fields [] = end
fields ((key, value) ∷ more) = field key value (fields more)

abbrev pub items : List Json → Items
items [] = nil
items (x ∷ more) = cons x (items more)

-- `fs[key] = value` on an object that has no such key.
abbrev pub add_field : Bytes → Json → Fields → Fields
add_field key value end = field key value end
add_field key value (field k v more) = field k v (add_field key value more)

-- `json(n)` of an unsigned number.
abbrev pub size_json : ℕ → Json
size_json n = number (pos n)
