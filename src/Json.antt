-- ===== src/Json.antt =====
-- JSON values as `json` decodes them: the arguments of a tool call, and EXPLAIN documents.
use qorl.Prelude.{
  String, Bool, Option, none, some, List, [], ◌∷◌, if◌then◌else◌, ◌==◌, nat_eq, string_eq,
}
use qorl.Numbers.{Number}

mutual
  pub data Json : Type 0 where
    null : Json
    bool : Bool → Json
    number : Number → Json
    str : String → Json
    arr : Items → Json
    obj : Fields → Json

  pub data Items : Type 0 where
    nil : Items
    cons : Json → Items → Items

  pub data Fields : Type 0 where
    end : Fields
    field : String → Json → Fields → Fields

-- value.get(key)
unfoldable pub get : String → Fields → Option Json
get key end = none
get key (field k v fs) = if k == key then some v else get key fs

unfoldable pub keys : Fields → List String
keys end = []
keys (field k v fs) = k ∷ keys fs
