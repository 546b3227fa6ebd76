-- ===== src/Json.antt =====
-- Values of `serde_json`, as far as the program builds and reads them.
use sqlgate.Prelude.{ℤ, Bool}
use sqlgate.Text.{Text}

-- A float is kept as the text that the library prints for it.
mutual
  pub data Json : Type 0 where
    null : Json
    bool : Bool → Json
    number : ℤ → Json
    float : Text → Json
    string : Text → Json
    array : Items → Json
    object : Fields → Json

  pub data Items : Type 0 where
    nil : Items
    cons : Json → Items → Items

  pub data Fields : Type 0 where
    end : Fields
    field : Text → Json → Fields → Fields
