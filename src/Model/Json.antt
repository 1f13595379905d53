-- ===== src/Model/Json.antt =====
-- What Python's json.loads returns, and the dictionary's `get`.
use hushline.Common.{Bool, Option, none, some, String, if◌then◌else◌, ◌==◌, string_eq, ℤ}

-- What `json.loads` returns; a float carries the integer that it equals, if there is one.
mutual
  pub data Json : Type 0 where
    null : Json
    boolean : Bool → Json
    number : ℤ → Json
    float : Option ℤ → Json
    text : String → Json
    array : Items → Json
    object : Fields → Json

  pub data Items : Type 0 where
    no_items : Items
    item : Json → Items → Items

  pub data Fields : Type 0 where
    no_fields : Fields
    field : String → Json → Fields → Fields

abbrev pub lookup : String → Fields → Option Json
lookup key no_fields = none
lookup key (field k v rest) = if k == key then some v else lookup key rest

abbrev or_null : Option Json → Json
or_null none = null
or_null (some v) = v

-- `d.get(key)`
abbrev pub get : String → Fields → Json
get key fs = or_null (lookup key fs)
