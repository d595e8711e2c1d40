-- ===== src/Tables/Tests.antt =====
-- Runs of stores/azure_table.py and stores/_table_json.py on the journal. The JSON is that of no
-- field, an empty one, or one field "k" with a text.
mod Calls
mod Progress
mod Rows
use Prim.Native.Char.{Char, code}
use Prim.Native.String.{String as Text}
use azure_functions_langgrap.Base.{
  ℕ, String, Bool, true, false, Option, none, some, List, [], ◌∷◌, ◌++◌, ◌==◌, string_eq, nat_eq,
  ◌≡◌, refl, arith, ap, sym, ◌∙◌, Outcome, returns, raises, if◌then◌else◌, Bool-cases, inl, inr,
  returns-injective, ==_iff, pos,
}
use azure_functions_langgrap.Base.Dict.{Dict, lookup, insert}
use azure_functions_langgrap.Base.Text.Slices.{◌+++◌, drop, starts_with, utf16_size, slices}
use azure_functions_langgrap.Base.Text.Decimal.{str}
use azure_functions_langgrap.Platform.Threads.{
  Thread, ThreadStatus, Interrupt, idle, busy, error, status_eq,
}
use azure_functions_langgrap.Platform.Stores.{Changes, new_thread, locked}
use azure_functions_langgrap.Tables.{Property, text, integer, time, Entity, TableError, value_error}
use azure_functions_langgrap.Tables.Json.{
  Codec, IsLossless, write_json, put_encoded, clear, put_chunks, chunk_name, read_json,
  validate_entity, validate_from, value_size, property_bytes,
}
use azure_functions_langgrap.Tables.Json.RoundTrip.{read_json-write_json}
use azure_functions_langgrap.Tables.Threads.{Codecs, entity_to_thread, thread_to_entity}
use azure_functions_langgrap.Tables.Store.Writes.{AreLossless}

-- "n" for `None`, "e" for an empty object, "k" and a text for an object with the field "k".
encode : Option (Dict String String) → Outcome TableError String
encode none = returns "n"
encode (some []) = returns "e"
encode (some ((k, v) ∷ [])) =
    if k == "k" then returns ("k" +++ v) else raises (value_error "another key")
encode (some (a ∷ b ∷ rest)) = raises (value_error "two keys")

decode : String → Outcome TableError (Option (Dict String String))
decode encoded =
    if starts_with encoded "n"
    then returns none
    else if starts_with encoded "e"
    then returns (some [])
    else returns (some (("k", drop 1 encoded) ∷ []))

abbrev fields : Codec (Option (Dict String String))
fields = record { dumps = encode; loads = decode; loads_bytes = λ b. raises (value_error "bytes") }

fields-IsLossless : IsLossless fields
unfolding encode decode
fields-IsLossless none encoded h = ap decode (sym (returns-injective "n" encoded h))
fields-IsLossless (some []) encoded h = ap decode (sym (returns-injective "e" encoded h))
fields-IsLossless (some ((k, v) ∷ [])) encoded h = elim (Bool-cases (k == "k")) [
  | inl same ↦
      ap decode (sym (returns-injective ("k" +++ v) encoded (rw same at h)))
      ∙ ap (λ (name : String). returns (some ((name, v) ∷ []))) (sym ((==_iff k "k").0 same))
  | inr differs ↦ absurd (ground (arith, differs, h))
]
fields-IsLossless (some (a ∷ b ∷ rest)) encoded h = absurd (ground arith)

-- No interrupts.
encode_none : Dict String (List (Interrupt String)) → Outcome TableError String
encode_none [] = returns "{}"
encode_none (i ∷ rest) = raises (value_error "interrupts")

abbrev no_interrupts : Codec (Dict String (List (Interrupt String)))
no_interrupts = record {
  dumps = encode_none;
  loads = λ t. returns [];
  loads_bytes = λ b. raises (value_error "bytes");
}

no_interrupts-IsLossless : IsLossless no_interrupts
unfolding encode_none
no_interrupts-IsLossless [] encoded h = refl
no_interrupts-IsLossless (i ∷ rest) encoded h = absurd (ground arith)

abbrev codecs : Codecs String
codecs = record { metadata = fields; values = fields; interrupts = no_interrupts }

codecs-AreLossless : AreLossless codecs
codecs-AreLossless = record {
  metadata = fields-IsLossless;
  values = fields-IsLossless;
  interrupts = no_interrupts-IsLossless;
}

-- A value in two chunks, with properties of at most 16 bytes.
abbrev long_value : Option (Dict String String)
long_value = some (("k", "abcdefghijk") ∷ [])

abbrev chunked : Entity
chunked =
    ("status", text "idle")
    ∷ ("values_json_format", text "utf16-v1")
    ∷ ("values_json_count", integer (pos 2))
    ∷ ("values_json_0", text "kabcdefg")
    ∷ ("values_json_1", text "hijk")
    ∷ []

read_json-write_json_example : read_json fields "values_json" none chunked ≡ returns long_value
unfolding write_json put_encoded clear put_chunks chunk_name str utf16_size slices validate_entity
    validate_from value_size encode insert
read_json-write_json_example =
    read_json-write_json fields 16 "values_json" long_value none
      (("status", text "idle") ∷ ("values_json", text "e") ∷ []) chunked chunked fields-IsLossless
      (refl, refl) (omega arith) refl (λ x. refl) refl
