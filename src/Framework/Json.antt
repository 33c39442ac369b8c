-- ===== src/Framework/Json.antt =====
-- `serde_json::Value` with the accessors that the providers call. A serialised body is kept as the
-- value that `serde_json` prints.
use openstack.Prelude.{ℕ, String, Bool, Option, none, some, List, [], ◌∷◌, ◌==◌, if◌then◌else◌}

mutual
  pub data Json : Type 0 where
    null : Json
    bool : Bool → Json
    -- an integer from 0 to 2 ^ 64 - 1
    num : ℕ → Json
    -- any other number, as it is written
    other_num : String → Json
    str : String → Json
    arr : Items → Json
    obj : Fields → Json

  pub data Items : Type 0 where
    nil : Items
    cons : Json → Items → Items

  -- The entries of an object in the order in which its map is walked.
  pub data Fields : Type 0 where
    end : Fields
    field : String → Json → Fields → Fields

abbrev pub items : Items → List Json
items nil = []
items (cons j js) = j ∷ items js

abbrev pub to_items : List Json → Items
to_items [] = nil
to_items (j ∷ js) = cons j (to_items js)

abbrev pub fields : Fields → List (String × Json)
fields end = []
fields (field k j fs) = (k, j) ∷ fields fs

abbrev pub to_fields : List (String × Json) → Fields
to_fields [] = end
to_fields ((k, j) ∷ fs) = field k j (to_fields fs)

-- `json!({ … })`.
abbrev pub object : List (String × Json) → Json
object fs = obj (to_fields fs)

-- `json!([ … ])`.
abbrev pub array : List Json → Json
array js = arr (to_items js)

field_of : String → Fields → Option Json
field_of key end = none
field_of key (field k j fs) = if k == key then some j else field_of key fs

-- `value.get(key)`; `value[key]` is this with `null` for a missing key.
unfoldable pub get_field : String → Json → Option Json
unfolding field_of
get_field key (obj fs) = field_of key fs
get_field key _ = none

abbrev pub as_str : Json → Option String
as_str (str s) = some s
as_str _ = none

abbrev pub as_u64 : Json → Option ℕ
as_u64 (num n) = some n
as_u64 _ = none

abbrev pub as_bool : Json → Option Bool
as_bool (bool b) = some b
as_bool _ = none

abbrev pub as_array : Json → Option (List Json)
as_array (arr js) = some (items js)
as_array _ = none

abbrev pub as_object : Json → Option (List (String × Json))
as_object (obj fs) = some (fields fs)
as_object _ = none
