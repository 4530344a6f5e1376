-- ===== src/Projection/Value.antt =====
-- A parsed JSON value (Go's any), as internal/projection/engine.go takes it apart.
use mini.Prelude.{ℕ, suc, Bytes}

mutual
  -- `other` is null, a Boolean or a number, by its text: the engine passes it through.
  pub data Json : Type 0 where
    other : Bytes → Json
    string : Bytes → Json
    array : JsonItems → Json
    object : JsonFields → Json

  pub data JsonItems : Type 0 where
    no_items : JsonItems
    item : Json → JsonItems → JsonItems

  pub data JsonFields : Type 0 where
    no_fields : JsonFields
    field : Bytes → Json → JsonFields → JsonFields

abbrev pub count_items : JsonItems → ℕ
count_items no_items = 0
count_items (item v xs) = suc (count_items xs)
