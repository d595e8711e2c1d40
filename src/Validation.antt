-- ===== src/Validation.antt =====
-- _validation.py: the input checks shared by the routes. A text is the list of its code points; an
-- error message is a constructor.
pub mod Names
pub mod Structure
pub mod NativeConfig
mod Tests
use text.Mathlib.Text.{starts_with}
use azure_functions_langgrap.Base.{
  ℕ, zero, suc, ◌+◌, ◌-◌, String, Bool, true, false, not, ◌&&◌, ◌||◌, Option, none, some, is_none,
  is_some, List, [], ◌∷◌, ◌==◌, nat_eq, string_eq, if◌then◌else◌, leb, ltb, length, all,
}
use azure_functions_langgrap.Base.Dict.{Dict, lookup}
use azure_functions_langgrap.Base.Json.{
  Value, Items, Fields, scalar, arr, obj, nil, cons, end, field,
}
use azure_functions_langgrap.Locks.Guard.{Item, Config, as_mapping, configurable_key}

pub data ValidationError : Type 0 where
  empty_name invalid_name empty_thread_id long_thread_id unprintable_thread_id : ValidationError
  large_body too_deep too_many_nodes : ValidationError
  not_configurable internal_key unapproved_key : ValidationError

unfoldable pub is_letter : ℕ → Bool
is_letter c = (leb 97 c && leb c 122) || (leb 65 c && leb c 90)

-- `[a-zA-Z0-9_-]`
unfoldable pub is_name_char : ℕ → Bool
unfolding is_letter
is_name_char c = is_letter c || ((leb 48 c && leb c 57) || (c == 95 || c == 45))

unfoldable pub is_printable : ℕ → Bool
is_printable c = leb 32 c && leb c 126

abbrev is_empty : List ℕ → Bool
is_empty [] = true
is_empty (c ∷ rest) = false

-- `$` without MULTILINE: at the end, or before a newline that is last.
abbrev pub at_dollar : List ℕ → Bool
at_dollar [] = true
at_dollar (c ∷ rest) = c == 10 && is_empty rest

-- `[a-zA-Z0-9_-]{0,n}$`; the newline is not of the class, so the match is greedy.
name_tail : ℕ → List ℕ → Bool
name_tail n [] = true
name_tail zero (c ∷ rest) = at_dollar (c ∷ rest)
name_tail (suc n) (c ∷ rest) =
    let more = name_tail n rest in if is_name_char c then more else at_dollar (c ∷ rest)

-- `_GRAPH_NAME_RE.match`
graph_name_re : List ℕ → Bool
unfolding name_tail
graph_name_re [] = false
graph_name_re (c ∷ rest) = is_letter c && name_tail 63 rest

-- `validate_graph_name`
unfoldable pub validate_graph_name : List ℕ → Option ValidationError
unfolding graph_name_re
validate_graph_name name =
    if is_empty name
    then some empty_name
    else if not (graph_name_re name)
    then some invalid_name
    else none

-- `[\x20-\x7e]*$`
printable_tail : List ℕ → Bool
printable_tail [] = true
printable_tail (c ∷ rest) =
    let more = printable_tail rest in if is_printable c then more else at_dollar (c ∷ rest)

-- `_PRINTABLE_RE.match`
printable_re : List ℕ → Bool
unfolding printable_tail
printable_re [] = false
printable_re (c ∷ rest) = is_printable c && printable_tail rest

-- `validate_thread_id`
unfoldable pub validate_thread_id : List ℕ → Option ValidationError
unfolding printable_re
validate_thread_id thread_id =
    if is_empty thread_id
    then some empty_thread_id
    else if ltb 256 (length thread_id)
    then some long_thread_id
    else if not (printable_re thread_id)
    then some unprintable_thread_id
    else none

-- `validate_body_size`, over the number of bytes.
unfoldable pub validate_body_size : ℕ → ℕ → Option ValidationError
validate_body_size size max_bytes = if ltb max_bytes size then some large_body else none

module _ (max_depth max_nodes : ℕ) where
  -- The tests at the head of `_count_depth_and_nodes`.
  guarded : ℕ → ℕ → ℕ × Option ValidationError → ℕ × Option ValidationError
  guarded depth nodes rest =
      if ltb max_depth depth
      then (nodes, some too_deep)
      else if ltb max_nodes nodes
      then (nodes, some too_many_nodes)
      else rest

  -- One round of its loops: `child` is the call for the element, `more` goes on from its count.
  counted :
      ℕ
      → (ℕ → ℕ × Option ValidationError)
      → (ℕ → ℕ × Option ValidationError)
      → ℕ × Option ValidationError
  counted nodes child more =
      let (n, err) = child (nodes + 1) in
      let rest = more n in
      if ltb max_nodes (nodes + 1)
      then (nodes + 1, some too_many_nodes)
      else if is_some err
      then (n, err)
      else rest

  -- `_count_depth_and_nodes`, with a function for each of the two loops.
  unfoldable mutual
    unfolding guarded counted

    pub count_depth_and_nodes : Value → ℕ → ℕ → ℕ × Option ValidationError
    count_depth_and_nodes (scalar s) depth nodes = guarded depth nodes (nodes, none)
    count_depth_and_nodes (arr xs) depth nodes =
        guarded depth nodes (count_items xs (depth + 1) nodes)
    count_depth_and_nodes (obj fs) depth nodes =
        guarded depth nodes (count_fields fs (depth + 1) nodes)

    pub count_items : Items → ℕ → ℕ → ℕ × Option ValidationError
    count_items nil depth nodes = (nodes, none)
    count_items (cons x xs) depth nodes =
        counted nodes (λ n. count_depth_and_nodes x depth n) (λ n. count_items xs depth n)

    pub count_fields : Fields → ℕ → ℕ → ℕ × Option ValidationError
    count_fields end depth nodes = (nodes, none)
    count_fields (field k x fs) depth nodes =
        counted nodes (λ n. count_depth_and_nodes x depth n) (λ n. count_fields fs depth n)

  -- `validate_input_structure`
  unfoldable pub validate_input_structure : Value → Option ValidationError
  validate_input_structure (scalar s) = none
  validate_input_structure (arr xs) = (count_depth_and_nodes (arr xs) 1 0).1
  validate_input_structure (obj fs) = (count_depth_and_nodes (obj fs) 1 0).1

-- `validate_native_config`
abbrev pub keys {ℓ} : {A : Type ℓ} → Dict String A → List String
keys [] = []
keys ((k, v) ∷ m) = k ∷ keys m

abbrev pub contains : List String → String → Bool
contains [] k = false
contains (x ∷ xs) k = x == k || contains xs k

check_configurable :
    {V G : Type 0} → List String → Option (Dict String (Item V G)) → Option ValidationError
check_configurable allowed none = none
check_configurable allowed (some m) =
    if not (all (λ k. not (starts_with k "__")) (keys m))
    then some internal_key
    else if not (all (contains ("thread_id" ∷ allowed)) (keys m))
    then some unapproved_key
    else none

unfoldable pub validate_native_config :
    {V G : Type 0} → Config V G → List String → Option ValidationError
unfolding check_configurable
validate_native_config config allowed =
    if not (all (λ k. k == configurable_key) (keys config))
    then some not_configurable
    else check_configurable allowed (as_mapping (lookup configurable_key config))
