-- ===== src/Tables/Json.antt =====
-- stores/_table_json.py: JSON values in the properties of an entity, and the capacity checks.
pub mod Names
pub mod Chunks
pub mod Agree
pub mod RoundTrip
pub mod Capacity
use Prim.Native.Nat.{◌/◌}
use azure_functions_langgrap.Base.{
  ℕ, zero, suc, ◌+◌, String, Bool, true, false, not, ◌&&◌, ◌||◌, Option, none, some, is_some, List,
  [], ◌∷◌, ◌==◌, string_eq, if◌then◌else◌, Outcome, returns, raises, ◌>>=◌, ◌>>◌, filter, length,
  leb, ltb, pos, ◌≡◌,
}
use azure_functions_langgrap.Base.Dict.{Dict, lookup, insert}
use azure_functions_langgrap.Base.Text.Slices.{◌+++◌, starts_with, utf16_size, slices}
use azure_functions_langgrap.Base.Text.Decimal.{str}
use azure_functions_langgrap.Tables.{
  Property, text, binary, boolean, integer, decimal, time, nothing, other, Entity, is_system,
  is_nothing, TableError, limit_exceeded, type_error, value_error, key_error,
}

-- `dumps` of _json.py and `json.loads` with the validation of the field that it is for.
pub record Codec (A : Type 0) : Type 0 where
  pub dumps : A → Outcome TableError String
  pub loads : String → Outcome TableError A
  pub loads_bytes : List ℕ → Outcome TableError A

-- What was written is read back.
abbrev pub IsLossless : {A : Type 0} → Codec A → Type 0
IsLossless {A} codec =
    (value : A) (encoded : String)
    → codec.dumps value ≡ returns encoded
    → codec.loads encoded ≡ returns value

abbrev pub property_bytes : ℕ
property_bytes = 65536

abbrev pub entity_bytes : ℕ
entity_bytes = 1048576

abbrev pub format_name : String → String
format_name field = field +++ "_format"

abbrev pub count_name : String → String
count_name field = field +++ "_count"

unfoldable pub chunk_name : String → ℕ → String
chunk_name field index = field +++ ("_" +++ str index)

-- `key == field or key.startswith(f"{field}_")`
abbrev pub belongs : String → String → Bool
belongs field key = key == field || starts_with key (field +++ "_")

unfoldable pub clear : String → Entity → Entity
clear field entity = filter (λ entry. not (belongs field entry.0)) entity

-- `for index, chunk in enumerate(chunks): entity[f"{field}_{index}"] = chunk`
unfoldable pub put_chunks : String → ℕ → List String → Entity → Entity
put_chunks field index [] entity = entity
put_chunks field index (chunk ∷ chunks) entity =
    put_chunks field (suc index) chunks (insert (chunk_name field index) (text chunk) entity)

-- `write_json` after `dumps`; `bytes` is `PROPERTY_BYTES`.
unfoldable pub put_encoded : ℕ → String → String → Entity → Entity
unfolding clear put_chunks
put_encoded bytes field encoded entity =
    let kept = clear field entity in
    let chunks = slices (bytes / 2) encoded in
    if leb (utf16_size encoded) bytes
    then insert field (text encoded) kept
    else put_chunks field 0 chunks (
        insert (count_name field) (integer (pos (length chunks)))
          (insert (format_name field) (text "utf16-v1") kept))

-- `write_json`
unfoldable pub write_json :
    {A : Type 0} → ℕ → Codec A → String → A → Entity → Outcome TableError Entity
unfolding put_encoded
write_json bytes codec field value entity = do
  encoded ← codec.dumps value
  returns (put_encoded bytes field encoded entity)

-- `entity[name]`
abbrev pub property_at : String → Entity → Outcome TableError Property
property_at name entity = elim (lookup name entity) [
  | none ↦ raises (key_error name)
  | some value ↦ returns value
]

-- `entity[f"{field}_{index}"] for index in range(first, first + count)`
unfoldable pub chunks_at : String → ℕ → ℕ → Entity → Outcome TableError (List Property)
chunks_at field index zero entity = returns []
chunks_at field index (suc count) entity = do
  chunk ← property_at (chunk_name field index) entity
  chunks ← chunks_at field (suc index) count entity
  returns (chunk ∷ chunks)

abbrev pub as_text : Property → Outcome TableError String
as_text (text t) = returns t
as_text _ = raises (type_error "expected str instance")

-- `"".join(chunks)`
unfoldable pub join : List Property → Outcome TableError String
join [] = returns ""
join (chunk ∷ chunks) = do first ← as_text chunk; rest ← join chunks; returns (first +++ rest)

-- `isinstance(count, int) and 1 <= count <= 252`; a `bool` is an `int`.
abbrev pub as_count : Property → Option ℕ
as_count (integer (pos n)) = if leb 1 n && leb n 252 then some n else none
as_count (boolean true) = some 1
as_count _ = none

abbrev pub valid_count : String → Property → Outcome TableError ℕ
valid_count field count = elim (as_count count) [
  | none ↦ raises (value_error "Invalid Azure Table JSON chunk count")
  | some n ↦ returns n
]

abbrev pub check_format : Property → Outcome {0, 0} TableError Unit
check_format (text format) =
    if format == "utf16-v1"
    then returns tt
    else raises (value_error "Unsupported Azure Table JSON format")
check_format _ = raises (value_error "Unsupported Azure Table JSON format")

read_chunked : {A : Type 0} → Codec A → String → Property → Entity → Outcome TableError A
unfolding chunks_at join
read_chunked codec field format entity = do
  check_format format
  count ← property_at (count_name field) entity
  n ← valid_count field count
  chunks ← chunks_at field 0 n entity
  encoded ← join chunks
  codec.loads encoded

read_legacy : {A : Type 0} → Codec A → A → Option Property → Outcome TableError A
read_legacy codec default none = returns default
read_legacy codec default (some nothing) = returns default
read_legacy codec default (some (text legacy)) = codec.loads legacy
read_legacy codec default (some (binary legacy)) = codec.loads_bytes legacy
read_legacy codec default (some _) = raises (type_error "the JSON object must be str or bytes")

-- `read_json`
unfoldable pub read_json : {A : Type 0} → Codec A → String → A → Entity → Outcome TableError A
unfolding read_chunked read_legacy
read_json codec field default entity = elim (lookup (format_name field) entity) [
  | none ↦ read_legacy codec default (lookup field entity)
  | some format ↦ read_chunked codec field format entity
]

-- The `match` of `validate_entity` on one value; `bytes` is `PROPERTY_BYTES`.
unfoldable pub value_size : ℕ → Property → Outcome TableError ℕ
value_size bytes (text t) =
    if ltb bytes (utf16_size t)
    then raises (limit_exceeded "string property" (utf16_size t) bytes)
    else returns (utf16_size t)
value_size bytes (binary b) =
    if ltb bytes (length b)
    then raises (limit_exceeded "binary property" (length b) bytes)
    else returns (length b)
value_size bytes (boolean b) = returns 16
value_size bytes (integer n) = returns 16
value_size bytes (decimal x) = returns 16
value_size bytes (time t) = returns 16
value_size bytes nothing = raises (type_error "NoneType")
value_size bytes (other name) = raises (type_error name)

abbrev pub is_skipped : String × Property → Bool
is_skipped (name, value) = is_system name || is_nothing value

-- The loop of `validate_entity`, from a size and a number of properties.
unfoldable pub validate_from : ℕ → ℕ → ℕ → Entity → Outcome {0, 0} TableError Unit
unfolding value_size
validate_from bytes size properties [] =
    if ltb 255 properties
    then raises (limit_exceeded "property count" properties 255)
    else if ltb entity_bytes size
    then raises (limit_exceeded "entity" size entity_bytes)
    else returns tt
validate_from bytes size properties (entry ∷ entries) = elim (is_skipped entry) [
  | true ↦ validate_from bytes size properties entries
  | false ↦ value_size bytes entry.1 >>= λ n.
      validate_from bytes (size + (utf16_size entry.0 + 32) + n) (suc properties) entries
]

-- `validate_entity`
unfoldable pub validate_entity : ℕ → Entity → Outcome {0, 0} TableError Unit
unfolding validate_from
validate_entity bytes entity = validate_from bytes 4096 1 entity
