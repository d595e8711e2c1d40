-- ===== src/Validation/Tests.antt =====
-- Inputs of _validation.py.
use text.Mathlib.Text.{starts_with}
use azure_functions_langgrap.Base.{
  ℕ, String, true, false, none, some, is_none, List, [], ◌∷◌, ◌&&◌, ◌||◌, ◌≡◌, ◌≢◌, ◌⊎◌, refl, leb,
  string_eq,
}
use azure_functions_langgrap.Base.Dict.{lookup}
use azure_functions_langgrap.Base.{pos}
use azure_functions_langgrap.Base.Json.{Value, scalar, arr, obj, nil, cons, end, field, integer}
use azure_functions_langgrap.Locks.Guard.{
  Item, Config, plain, mapping, as_mapping, configurable_key,
}
use azure_functions_langgrap.Validation.{
  is_letter, is_name_char, validate_graph_name, validate_input_structure, validate_native_config,
  contains,
}
use azure_functions_langgrap.Validation.Names.{chomp, is_graph_name, validate_graph_name_lem}
use azure_functions_langgrap.Validation.Structure.{
  height, nodes_in, is_scalar, validate_input_structure_lem,
}
use azure_functions_langgrap.Validation.NativeConfig.{accepted_keys}

-- `a-1`
abbrev name : List ℕ
name = 97 ∷ 45 ∷ 49 ∷ []

name_is_graph_name : is_graph_name name ≡ true
unfolding is_letter is_name_char
name_is_graph_name = refl

validate_graph_name_example : is_none (validate_graph_name name) ≡ is_graph_name (chomp name)
validate_graph_name_example = validate_graph_name_lem name

-- `{"a": [1, 2]}`
abbrev nested : Value
nested =
    obj
      (field "a" (arr (cons (scalar (integer (pos 1))) (cons (scalar (integer (pos 2))) nil))) end)

validate_input_structure_example :
    is_none (validate_input_structure 3 3 nested)
    ≡ (is_scalar 3 3 nested || (leb (height nested) 3 && leb (nodes_in nested) 3))
validate_input_structure_example = validate_input_structure_lem 3 3 nested

abbrev config : Config String ℕ
config = (configurable_key, mapping (("user", plain "u") ∷ [])) ∷ []

config_is_accepted : validate_native_config config ("user" ∷ []) ≡ none
unfolding validate_native_config lookup
config_is_accepted = refl

accepted_keys_example :
    (◌≢◌ {A = String} "tenant" configurable_key → lookup "tenant" config ≡ none)
    × ((m : List (String × Item String ℕ))
        → as_mapping (lookup configurable_key config) ≡ some m
        → ((starts_with "tenant" "__" ≡ true)
            ⊎ (contains ("thread_id" ∷ "user" ∷ []) "tenant" ≡ false))
        → lookup "tenant" m ≡ none)
accepted_keys_example = accepted_keys config ("user" ∷ []) config_is_accepted "tenant"
