-- ===== src/Tables.antt =====
-- The thread store on Azure Table Storage: stores/azure_table.py with stores/_table_json.py. An
-- entity is a dictionary of properties.
pub mod Json
pub mod Threads
pub mod Service
pub mod Requests
pub mod Store
mod Tests
use azure_functions_langgrap.Base.{ℕ, String, Bool, true, false, List, ℤ, ◌||◌, ◌==◌, string_eq}
use azure_functions_langgrap.Base.Dict.{Dict}

-- A property's value, by its Python type; a float is kept as its text.
pub data Property : Type 0 where
  text : String → Property
  binary : List ℕ → Property
  boolean : Bool → Property
  integer : ℤ → Property
  decimal : String → Property
  time : ℕ → Property  -- a `datetime`, in seconds
  nothing : Property  -- `None`
  other : String → Property  -- the name of another type

abbrev pub Entity : Type 0
Entity = Dict String Property

-- What the service writes itself: `name in {"etag", "Timestamp"}`.
abbrev pub is_system : String → Bool
is_system name = name == "etag" || name == "Timestamp"

abbrev pub is_nothing : Property → Bool
is_nothing nothing = true
is_nothing _ = false

-- What the functions raise: `TableStorageLimitError`, the built-in exceptions, the error of a
-- thread that fails validation, and `RunLockReleaseError`.
pub data TableError : Type 0 where
  limit_exceeded : String → ℕ → ℕ → TableError  -- dimension, size, limit
  type_error : String → TableError
  value_error : String → TableError
  key_error : String → TableError
  bound_to : String → String → TableError  -- the thread's assistant, the run's
  release_error : String → TableError
  modified : TableError
  not_found : TableError
  service_error : String → TableError
