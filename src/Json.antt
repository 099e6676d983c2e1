-- ===== src/Json.antt =====
-- The trees that the cJSON library builds. The printer, cJSON_Print, is a parameter where it is used.
use text.Mathlib.Text.{◌==◌}
use mod_audio_stream.Common.{ℕ, List, [], ◌∷◌, String, Option, none, some, if◌then◌else◌}

mutual
  pub data Json : Type 0 where
    number : ℕ → Json
    string : List ℕ → Json
    array : Items → Json
    object : Fields → Json

  pub data Items : Type 0 where
    nil : Items
    item : Json → Items → Items

  pub data Fields : Type 0 where
    end : Fields
    field : String → Json → Fields → Fields

-- cJSON_AddItemToObject and cJSON_AddItemToArray in turn.
abbrev pub fields : List (String × Json) → Fields
fields [] = end
fields ((k, v) ∷ r) = field k v (fields r)

abbrev pub items : List Json → Items
items [] = nil
items (v ∷ r) = item v (items r)

-- cJSON_GetObjectItem: the first field of that name, if the value is an object.
abbrev pub find_field : String → Fields → Option Json
find_field k end = none
find_field k (field j v r) = let rest = find_field k r in if j == k then some v else rest

abbrev pub get_item : String → Json → Option Json
get_item k (object r) = find_field k r
get_item k _ = none

-- cJSON_GetStringValue
abbrev pub string_value : Json → Option (List ℕ)
string_value (string s) = some s
string_value _ = none

abbrev pub number_value : Json → Option ℕ
number_value (number n) = some n
number_value _ = none

-- cJSON_GetObjectCstr
abbrev pub get_cstr : String → Json → Option (List ℕ)
get_cstr k v = elim (get_item k v) [ none ↦ none | some w ↦ string_value w ]
