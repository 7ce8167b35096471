-- ===== src/Json.antt =====
-- The decoded JSON that the broker passes on: `interface{}` and `map[string]interface{}` of Go. Only
-- objects and texts are looked into.
pub mod Laws
use on_demand_service_broker.Prelude.{◌==◌, Option, none, some, String, if◌then◌else◌}

mutual
  pub data Value : Type 0 where
    null : Value
    text : String → Value
    object : Object → Value
    -- a number, a Boolean or an array, as it is written
    other_value : String → Value

  pub data Object : Type 0 where
    end : Object
    field : String → Value → Object → Object

-- `value, found := object[key]`
unfoldable pub get : String → Object → Option Value
get key end = none
get key (field name value rest) = if name == key then some value else get key rest

-- `object[key] = value`
unfoldable pub set : String → Value → Object → Object
set key value end = field key value end
set key value (field name old rest) =
    let kept = set key value rest in
    if name == key then field name value rest else field name old kept
