-- ===== src/Proxmox/Json.antt =====
-- Decoded JSON, as Python's json module gives it. An object lists each of its keys once. A `float`
-- is known here by the integer that it equals, if there is one.
use server_npd.Prelude.{
  ℕ, String, Bool, true, false, Option, none, some, List, [], ◌∷◌, str_eq, option_case,
  if◌then◌else◌,
}
use server_npd.Prelude.Int.{ℤ, pos, is_nat}

mutual
  pub data Json : Type 0 where
    null : Json
    boolean : Bool → Json
    integer : ℤ → Json
    float : Option ℤ → Json
    text : String → Json
    array : JsonArray → Json
    object : JsonObject → Json

  pub data JsonArray : Type 0 where
    empty : JsonArray
    item : Json → JsonArray → JsonArray

  pub data JsonObject : Type 0 where
    blank : JsonObject
    member : String → Json → JsonObject → JsonObject

-- `isinstance(value, dict)`, `isinstance(value, list)` and `isinstance(value, str)`.
unfoldable pub as_object : Json → Option JsonObject
as_object (object fields) = some fields
as_object other = none

unfoldable pub as_array : Json → Option JsonArray
as_array (array items) = some items
as_array other = none

unfoldable pub as_text : Json → Option String
as_text (text s) = some s
as_text other = none

-- `isinstance(value, int)`, which holds of `True` and `False` too.
unfoldable pub as_int : Json → Option ℤ
as_int (integer z) = some z
as_int (boolean b) = some (pos (if b then 1 else 0))
as_int other = none

unfoldable pub is_boolean : Json → Bool
is_boolean (boolean b) = true
is_boolean other = false

unfoldable pub is_container : Json → Bool
is_container (array items) = true
is_container (object fields) = true
is_container other = false

unfoldable pub is_null : Json → Bool
is_null null = true
is_null other = false

-- `value == n` for a number, and `value == s` for a text.
unfoldable pub equals_nat : Json → ℕ → Bool
equals_nat (float z) n = option_case z false (λ i. is_nat i n)
equals_nat v n = option_case (as_int v) false (λ z. is_nat z n)

unfoldable pub equals_text : Json → String → Bool
equals_text v s = option_case (as_text v) false (λ t. str_eq t s)

-- `key in fields`, and `fields.get(key)`, which is None where there is no such key.
unfoldable pub find_member : String → JsonObject → Option Json
find_member key blank = none
find_member key (member name value rest) =
    if str_eq name key then some value else find_member key rest

unfoldable pub get : String → JsonObject → Json
get key fields = option_case (find_member key fields) null (λ v. v)

unfoldable pub items_of : JsonArray → List Json
items_of empty = []
items_of (item v rest) = v ∷ items_of rest
