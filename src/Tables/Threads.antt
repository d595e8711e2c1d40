-- ===== src/Tables/Threads.antt =====
-- `_thread_to_entity` and `_entity_to_thread` of stores/azure_table.py. A `datetime` is an instant,
-- which `_normalize_datetime` keeps.
pub mod Decodes
use azure_functions_langgrap.Base.{
  ℕ, String, Bool, Option, none, some, List, [], ◌∷◌, ◌==◌, string_eq, if◌then◌else◌, Outcome,
  returns, raises, ◌>>=◌, filter, not, ◌||◌,
}
use azure_functions_langgrap.Base.Dict.{Dict, lookup, insert}
use azure_functions_langgrap.Platform.Threads.{
  Thread, ThreadStatus, idle, busy, interrupted, error, Interrupt,
}
use azure_functions_langgrap.Tables.{
  Property, text, time, nothing, Entity, TableError, type_error, value_error, is_system,
}
use azure_functions_langgrap.Tables.Json.{Codec, property_at, property_bytes, read_json, write_json}

-- The JSON of the three fields; `none` is Python's `None`.
pub record Codecs (V : Type 0) : Type 0 where
  pub metadata : Codec (Option (Dict String V))
  pub values : Codec (Option (Dict String V))
  pub interrupts : Codec (Dict String (List (Interrupt V)))

abbrev pub status_text : ThreadStatus → String
status_text idle = "idle"
status_text busy = "busy"
status_text interrupted = "interrupted"
status_text error = "error"

parse_status : String → Outcome TableError ThreadStatus
parse_status name =
    if name == "idle"
    then returns idle
    else if name == "busy"
    then returns busy
    else if name == "interrupted"
    then returns interrupted
    else if name == "error"
    then returns error
    else raises (value_error "status")

-- `entity.get("status", "idle")`, validated.
unfoldable pub read_status : Option Property → Outcome TableError ThreadStatus
unfolding parse_status
read_status none = returns idle
read_status (some (text name)) = parse_status name
read_status (some _) = raises (value_error "status")

-- `entity.get(name)` for a `str | None`.
unfoldable pub read_text : Option Property → Outcome TableError (Option String)
read_text none = returns none
read_text (some nothing) = returns none
read_text (some (text t)) = returns (some t)
read_text (some _) = raises (value_error "str")

unfoldable pub as_time : Property → Outcome TableError ℕ
as_time (time t) = returns t
as_time _ = raises (type_error "datetime")

-- `lock_expires_at`, normalized if it is there.
unfoldable pub read_time : Option Property → Outcome TableError (Option ℕ)
read_time none = returns none
read_time (some nothing) = returns none
read_time (some (time t)) = returns (some t)
read_time (some _) = raises (type_error "datetime")

-- A row key is a text.
unfoldable pub as_key : Property → Outcome TableError String
as_key (text t) = returns t
as_key _ = raises (type_error "RowKey")

-- `replacement[name] = value` if the value is given.
abbrev pub put_some : String → Option Property → Entity → Entity
put_some name none entity = entity
put_some name (some value) entity = insert name value entity

-- `if value is not None: write_json(entity, field, value)`
abbrev pub write_some :
    {A : Type 0} → Codec (Option A) → String → Option A → Entity → Outcome TableError Entity
write_some codec field none entity = returns entity
write_some codec field (some value) entity =
    write_json property_bytes codec field (some value) entity

abbrev pub write_given :
    {A : Type 0} → Codec A → String → Option A → Entity → Outcome TableError Entity
write_given codec field none entity = returns entity
write_given codec field (some value) entity = write_json property_bytes codec field value entity

abbrev pub map_text : Option String → Option Property
map_text none = none
map_text (some t) = some (text t)

abbrev pub map_status : Option ThreadStatus → Option Property
map_status none = none
map_status (some s) = some (text (status_text s))

module _ {V : Type 0} (codecs : Codecs V) where
  -- `_entity_to_thread`
  unfoldable pub entity_to_thread : Entity → Outcome TableError (Thread V)
  entity_to_thread entity = do
    metadata ← read_json codecs.metadata "metadata_json" none entity
    values ← read_json codecs.values "values_json" none entity
    interrupts ← read_json codecs.interrupts "interrupts_json" [] entity
    id ← property_at "RowKey" entity >>= as_key
    created_at ← property_at "created_at" entity >>= as_time
    updated_at ← property_at "updated_at" entity >>= as_time
    expires_at ← read_time (lookup "lock_expires_at" entity)
    status ← read_status (lookup "status" entity)
    assistant_id ← read_text (lookup "assistant_id" entity)
    token ← read_text (lookup "lock_token" entity)
    returns (record {
      thread_id = id;
      created_at = created_at;
      updated_at = updated_at;
      metadata = metadata;
      status = status;
      values = values;
      assistant_id = assistant_id;
      interrupts = interrupts;
      lock_token = token;
      lock_expires_at = expires_at;
    })

  -- `_thread_to_entity`; the lock's properties are not written.
  unfoldable pub thread_to_entity : Thread V → Outcome TableError Entity
  thread_to_entity t = do
    described ← write_json property_bytes codecs.interrupts "interrupts_json" t.interrupts (
        ("PartitionKey", text "thread")
        ∷ ("RowKey", text t.thread_id)
        ∷ ("created_at", time t.created_at)
        ∷ ("updated_at", time t.updated_at)
        ∷ ("status", text (status_text t.status))
        ∷ [])
    tagged ← write_some codecs.metadata "metadata_json" t.metadata described
    filled ← write_some codecs.values "values_json" t.values tagged
    returns (put_some "assistant_id" (map_text t.assistant_id) filled)
