-- ===== src/Json.antt =====
-- `serde_json::Value`: the data that the program matches on. The numbers are serde_json's own type.
-- An object lists its entries in the order in which its map iterates.
pub mod Depth
pub mod Keys
use sdk_elixir.Base.{String, Bool, true, false, Option, none, some}

mutual
  pub data Value (N : Type 0) : Type 0 where
    null : Value N
    bool : Bool → Value N
    num : N → Value N
    str : String → Value N
    arr : Items N → Value N
    obj : Fields N → Value N

  pub data Items (N : Type 0) : Type 0 where
    nil : Items N
    cons : Value N → Items N → Items N

  pub data Fields (N : Type 0) : Type 0 where
    end : Fields N
    field : String → Value N → Fields N → Fields N

module _ {N : Type 0} where
  -- `Value::is_null` and `Value::as_str`.
  abbrev pub is_null : Value N → Bool
  is_null null = true
  is_null _ = false

  abbrev pub as_str : Value N → Option String
  as_str (str s) = some s
  as_str _ = none
