-- ===== src/Json.antt =====
-- The values that encoding/json decodes into `interface{}`, over an abstract type of `float64`, and
-- the type assertions that the program makes on them.
use auto_mock_tools.Prelude.{Bool, List, [], ◌∷◌, Option, none, some, Bytes, Assoc, lookup}

mutual
  pub data Json (F : Type 0) : Type 0 where
    null : Json F
    bool : Bool → Json F
    num : F → Json F
    str : Bytes → Json F
    arr : Items F → Json F
    obj : Fields F → Json F

  pub data Items (F : Type 0) : Type 0 where
    nil : Items F
    cons : Json F → Items F → Items F

  pub data Fields (F : Type 0) : Type 0 where
    end : Fields F
    field : Bytes → Json F → Fields F → Fields F

module _ {F : Type 0} where
  abbrev pub item_list : Items F → List (Json F)
  item_list nil = []
  item_list (cons j js) = j ∷ item_list js

  abbrev pub items : List (Json F) → Items F
  items [] = nil
  items (j ∷ js) = cons j (items js)

  abbrev pub field_list : Fields F → Assoc (Json F)
  field_list end = []
  field_list (field k j fs) = (k, j) ∷ field_list fs

  abbrev pub fields : Assoc (Json F) → Fields F
  fields [] = end
  fields ((k, j) ∷ m) = field k j (fields m)

  -- `v.(string)`, `v.(float64)`, `v.([]interface{})`, `v.(map[string]interface{})`
  abbrev pub as_str : Json F → Option Bytes
  as_str (str s) = some s
  as_str _ = none

  abbrev pub as_num : Json F → Option F
  as_num (num x) = some x
  as_num _ = none

  abbrev pub as_obj : Json F → Option (Assoc (Json F))
  as_obj (obj fs) = some (field_list fs)
  as_obj _ = none

  -- `m[k]` of a `map[string]interface{}`: nil for a missing key
  abbrev pub value_at : Bytes → Assoc (Json F) → Json F
  value_at k m = elim (lookup k m) [ none ↦ null | some j ↦ j ]

  -- `s, _ := v.(string)`
  abbrev pub str_or_empty : Json F → Bytes
  str_or_empty (str s) = s
  str_or_empty _ = []
