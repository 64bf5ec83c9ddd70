-- ===== src/Rpc/Json.antt =====
-- The JSON trees that src/rpc.c builds by the calls of cJSON.
use reveldb.Prelude.{ℕ, Bytes}

mutual
  pub data Json : Type 0 where
    true_ : Json
    false_ : Json
    number : ℕ → Json
    text : Bytes → Json
    array : Items → Json
    object : Fields → Json

  pub data Items : Type 0 where
    no_items : Items
    item : Json → Items → Items

  pub data Fields : Type 0 where
    no_fields : Fields
    field : Bytes → Json → Fields → Fields

infixr 67 ◌▸◌
abbrev pub ◌▸◌ : Bytes × Json → Fields → Fields
◌▸◌ (k, v) fs = field k v fs

pub append_field : Fields → Bytes → Json → Fields
append_field no_fields k v = field k v no_fields
append_field (field j w fs) k v = field j w (append_field fs k v)
