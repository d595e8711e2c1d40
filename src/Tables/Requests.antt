-- ===== src/Tables/Requests.antt =====
-- What the methods of `AzureTableThreadStore` in stores/azure_table.py send and how they go on: the
-- patches and replacements, the owner test, and the errors of a conditional write.
use azure_functions_langgrap.Base.{
  ℕ, ◌+◌, String, Bool, true, false, not, ◌||◌, Option, none, some, [], ◌∷◌, ◌==◌, string_eq,
  Outcome, returns, raises, ◌>>=◌, filter,
}
use azure_functions_langgrap.Base.Dict.{Dict, insert}
use azure_functions_langgrap.Platform.Threads.{ThreadStatus, status_eq}
use azure_functions_langgrap.Platform.Stores.{Changes}
use azure_functions_langgrap.Tables.{
  Property, text, time, Entity, TableError, key_error, modified, not_found, is_system,
}
use azure_functions_langgrap.Tables.Threads.{
  Codecs, status_text, put_some, write_some, write_given, map_text, map_status,
}
use azure_functions_langgrap.Tables.Service.{TableClient}

pub record Turn (S : Type 0) : Type 0 where
  pub before : S → S  -- ahead of the read
  pub between : S → S  -- from the read to the write
  pub now : ℕ
  pub token : String

-- `except not_found_error: raise KeyError(thread_id)`; other errors pass.
abbrev pub or_key_error : String → TableError → TableError
or_key_error id not_found = key_error id
or_key_error id x = x

-- `owner_token is not None and entity.get("lock_token") != owner_token`
abbrev pub is_stranger : Option String → Option Property → Bool
is_stranger none held = false
is_stranger (some owner) (some (text t)) = not (t == owner)
is_stranger (some owner) _ = true

-- The patch of `try_acquire_run_lock`; `assistant` is the thread's, if it has one.
abbrev pub acquire_patch : String → ℕ → String → Option String → Option String → Entity
acquire_patch id now token assistant wanted =
    ("PartitionKey", text "thread")
    ∷ ("RowKey", text id)
    ∷ ("status", text "busy")
    ∷ ("updated_at", time now)
    ∷ ("lock_token", text token)
    ∷ ("lock_expires_at", time (now + 60))
    ∷ (elim assistant [
      | none ↦ (elim wanted [ none ↦ [] | some a ↦ ("assistant_id", text a) ∷ [] ])
      | some bound ↦ []
    ])

abbrev pub renew_patch : String → ℕ → Entity
renew_patch id now =
    ("PartitionKey", text "thread")
    ∷ ("RowKey", text id)
    ∷ ("updated_at", time now)
    ∷ ("lock_expires_at", time (now + 60))
    ∷ []

-- The patch of `reset_stale_locks`.
abbrev pub reset_patch : String → ℕ → ThreadStatus → Entity
reset_patch id now status =
    ("PartitionKey", text "thread")
    ∷ ("RowKey", text id)
    ∷ ("status", text (status_text status))
    ∷ ("updated_at", time now)
    ∷ []

-- `key not in {"lock_token", "lock_expires_at", "etag", "Timestamp"}`
abbrev pub outlives_lock : String → Bool
outlives_lock name = not (name == "lock_token" || (name == "lock_expires_at" || is_system name))

module _ (T : TableClient) where
  abbrev pub Result : Type 0 → Type 0
  Result A = Outcome TableError A × T.State

  -- What follows a request to write: the result, another attempt, or an error.
  unfoldable pub after_write :
      {A : Type 0}
      → String
      → Outcome TableError A
      → (T.State → Result A)
      → Outcome {0, 0} TableError Unit × T.State
      → Result A
  after_write id result retry (returns done, s) = (result, s)
  after_write id result retry (raises modified, s) = retry s
  after_write id result retry (raises x, s) = (raises (or_key_error id x), s)

module _ {V : Type 0} (codecs : Codecs V) where
  -- The replacement that `update` writes.
  unfoldable pub update_replacement : ℕ → Changes V → Entity → Outcome TableError Entity
  update_replacement now c entity = do
    tagged ←
        write_some codecs.metadata "metadata_json" c.metadata
          (insert "updated_at" (time now) (filter (λ entry. not (is_system entry.0)) entity))
    filled ← write_some codecs.values "values_json" c.values tagged
    described ← write_given codecs.interrupts "interrupts_json" c.interrupts filled
    returns (
        put_some "assistant_id" (map_text c.assistant_id)
          (put_some "status" (map_status c.status) described))

  -- The replacement that `release_run_lock` writes.
  unfoldable pub release_replacement :
      ℕ → ThreadStatus → Option (Dict String V) → Entity → Outcome TableError Entity
  release_replacement now status values entity = write_some codecs.values "values_json" values (
      insert "updated_at" (time now) (
        insert "status" (text (status_text status))
          (filter (λ entry. outlives_lock entry.0) entity)))
