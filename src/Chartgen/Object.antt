-- ===== src/Chartgen/Object.antt =====
-- `map[string]any`, the decoded YAML that cmd/chartgen works on: a Go value of one of the types that
-- a decoder of YAML or JSON produces. A float64 is its bit pattern.
use opendatahub_ai_gateway_o.Base.{ℕ, Bool, Option, none, some, if◌then◌else◌}
use opendatahub_ai_gateway_o.Text.{Text, equal}

-- `negsuc n` is -(n + 1).
pub data ℤ : Type 0 where
  pos : ℕ → ℤ
  negsuc : ℕ → ℤ

mutual
  pub data Value : Type 0 where
    null : Value
    boolean : Bool → Value
    int64 : ℤ → Value
    float64 : ℕ → Value
    string : Text → Value
    slice : Items → Value
    object : Fields → Value

  pub data Items : Type 0 where
    nil : Items
    cons : Value → Items → Items

  pub data Fields : Type 0 where
    end : Fields
    field : Text → Value → Fields → Fields

-- `m[key]`; `none`: the key is missing.
unfoldable pub get_field : Text → Fields → Option Value
get_field key end = none
get_field key (field k v fields) =
    let rest = get_field key fields in if equal k key then some v else rest

-- `v.(string)`, `v.(map[string]any)` on what a lookup returned, with `ok`.
unfoldable pub as_string : Option Value → Option Text
as_string (some (string s)) = some s
as_string _ = none

unfoldable pub as_object : Option Value → Option Fields
as_object (some (object fields)) = some fields
as_object _ = none
