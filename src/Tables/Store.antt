-- ===== src/Tables/Store.antt =====
-- `AzureTableThreadStore` of stores/azure_table.py: its methods on one thread. A method takes the
-- state of the table, and a turn for each attempt: what other callers do before its two requests,
-- the clock and the new lock token.
pub mod Patches
pub mod Writes
pub mod Unlocked
pub mod Updated
pub mod Abstraction
pub mod Acquire
pub mod Replace
pub mod Release
pub mod Update
pub mod Renew
pub mod Sweep
pub mod Entities
pub mod Rows
pub mod Queries
pub mod Progress
use azure_functions_langgrap.Base.{
  ℕ, zero, suc, ◌+◌, String, Bool, true, false, not, ◌||◌, Option, none, some, List, [], ◌∷◌, ◌==◌,
  string_eq, if◌then◌else◌, Outcome, returns, raises, ◌>>=◌, filter, or_else,
}
use azure_functions_langgrap.Base.Dict.{Dict, lookup, insert}
use azure_functions_langgrap.Platform.Threads.{
  Thread, ThreadStatus, idle, busy, Interrupt, status_eq,
}
use azure_functions_langgrap.Platform.Stores.{Changes, conflicts, new_thread, locked}
use azure_functions_langgrap.Tables.{
  Property, text, time, Entity, TableError, key_error, value_error, bound_to, release_error,
  modified, not_found, is_system,
}
use azure_functions_langgrap.Tables.Json.{validate_entity, property_bytes, write_json}
use azure_functions_langgrap.Tables.Threads.{
  Codecs, entity_to_thread, thread_to_entity, status_text, put_some, write_some, write_given,
  map_text, map_status,
}
use azure_functions_langgrap.Tables.Service.{
  TableClient, Row, merges, replaces, merge, cas_etag, renewal_etag, update_etag,
}
use azure_functions_langgrap.Tables.Requests.{
  Result, Turn, acquire_patch, after_write, is_stranger, or_key_error, outlives_lock,
  release_replacement, renew_patch, reset_patch, update_replacement,
}

module _ {V : Type 0} (codecs : Codecs V) (T : TableClient) where
  unfoldable pub created_at :
      Entity → Outcome {0, 0} TableError Unit × T.State → Result T (Thread V)
  created_at entity (raises x, s) = (raises x, s)
  created_at entity (returns done, s) = (entity_to_thread codecs entity, s)

  -- `create`, given the clock and the new id.
  unfoldable pub create : ℕ → String → Option (Dict String V) → T.State → Result T (Thread V)
  unfolding created_at
  create now id metadata s = elim (thread_to_entity codecs (new_thread now id metadata)) [
    | raises x ↦ (raises x, s)
    | returns entity ↦ (elim (validate_entity property_bytes entity) [
      | raises x ↦ (raises x, s)
      | returns fits ↦ created_at entity (T.create_entity s entity)
    ])
  ]

  -- `get`
  unfoldable pub get : String → T.State → Outcome TableError (Option (Thread V))
  get id s = elim (T.get_entity s id) [
    | raises not_found ↦ returns none
    | raises x ↦ raises x
    | returns row ↦ entity_to_thread codecs row.entity >>= λ t. returns (some t)
  ]

  unfoldable pub deleted_at :
      String → Outcome {0, 0} TableError Unit × T.State → Result T (Unit {0})
  deleted_at id (raises x, s) = (raises (or_key_error id x), s)
  deleted_at id (returns done, s) = (returns tt, s)

  -- `delete`
  unfoldable pub delete : String → T.State → Result T (Unit {0})
  unfolding deleted_at
  delete id s = deleted_at id (T.delete_entity s id)

  -- Validation of the entity and the conditional replacement of the row.
  unfoldable pub replace_row :
      String
      → Turn T.State
      → (T.State → Result T (Thread V))
      → Entity
      → Option String
      → T.State
      → Result T (Thread V)
  unfolding after_write
  replace_row id turn retry replacement tag s = elim (validate_entity property_bytes replacement) [
    | raises x ↦ (raises x, s)
    | returns fits ↦
        after_write T id (entity_to_thread codecs replacement) retry
          (T.update_entity (turn.between s) replaces replacement tag)
  ]

  -- One pass of the loop of `update`.
  unfoldable pub update_attempt :
      String
      → Changes V
      → Turn T.State
      → (T.State → Result T (Thread V))
      → T.State
      → Result T (Thread V)
  unfolding update_replacement replace_row
  update_attempt id c turn retry s = elim (T.get_entity s id) [
    | raises modified ↦ retry s
    | raises x ↦ (raises (or_key_error id x), s)
    | returns row ↦ (elim (update_replacement codecs turn.now c row.entity) [
      | raises x ↦ (raises x, s)
      | returns replacement ↦ replace_row id turn retry replacement (update_etag row) s
    ])
  ]

  -- The attempts that are left; a modified row at the last one is raised.
  unfoldable pub update_attempts :
      ℕ → (ℕ → Turn T.State) → String → Changes V → T.State → Result T (Thread V)
  unfolding update_attempt
  update_attempts zero turns id c s = (raises modified, s)
  update_attempts (suc n) turns id c s =
      update_attempt id c (turns n) (update_attempts n turns id c) ((turns n).before s)

  -- `update`
  unfoldable pub update : (ℕ → Turn T.State) → String → Changes V → T.State → Result T (Thread V)
  unfolding update_attempts
  update turns id c s = update_attempts 3 turns id c s

  acquire_write :
      String
      → Option String
      → Turn T.State
      → (T.State → Result T (Option (Thread V)))
      → Row
      → Thread V
      → T.State
      → Result T (Option (Thread V))
  unfolding after_write
  acquire_write id wanted turn retry row t s =
      let patch = acquire_patch id turn.now turn.token t.assistant_id wanted in
      elim (validate_entity property_bytes (merge row.entity patch)) [
        | raises x ↦ (raises x, s)
        | returns fits ↦
            after_write T id (returns (some (locked turn.now turn.token wanted t))) retry
              (T.update_entity (turn.between s) merges patch (cas_etag row))
      ]

  -- One pass of the loop of `try_acquire_run_lock`.
  unfoldable pub acquire_attempt :
      String
      → Option String
      → Turn T.State
      → (T.State → Result T (Option (Thread V)))
      → T.State
      → Result T (Option (Thread V))
  unfolding acquire_write
  acquire_attempt id wanted turn retry s = elim (T.get_entity s id) [
    | raises x ↦ (raises (or_key_error id x), s)
    | returns row ↦ (elim (entity_to_thread codecs row.entity) [
      | raises x ↦ (raises x, s)
      | returns t ↦ (elim (conflicts t.assistant_id wanted) [
        | true ↦ (raises (bound_to (or_else t.assistant_id "") (or_else wanted "")), s)
        | false ↦ (elim (t.status == busy) [
          | true ↦ (returns none, s)
          | false ↦ acquire_write id wanted turn retry row t s
        ])
      ])
    ])
  ]

  unfoldable pub acquire_attempts :
      ℕ → (ℕ → Turn T.State) → String → Option String → T.State → Result T (Option (Thread V))
  unfolding acquire_attempt
  acquire_attempts zero turns id wanted s = (returns none, s)
  acquire_attempts (suc n) turns id wanted s =
      acquire_attempt id wanted (turns n) (acquire_attempts n turns id wanted) ((turns n).before s)

  -- `try_acquire_run_lock`
  unfoldable pub try_acquire_run_lock :
      (ℕ → Turn T.State) → String → Option String → T.State → Result T (Option (Thread V))
  unfolding acquire_attempts
  try_acquire_run_lock turns id wanted s = acquire_attempts 3 turns id wanted s

  -- One pass of the loop of `release_run_lock`.
  unfoldable pub release_attempt :
      String
      → ThreadStatus
      → Option (Dict String V)
      → Option String
      → Turn T.State
      → (T.State → Result T (Thread V))
      → T.State
      → Result T (Thread V)
  unfolding release_replacement replace_row
  release_attempt id status values owner turn retry s = elim (T.get_entity s id) [
    | raises x ↦ (raises (or_key_error id x), s)
    | returns row ↦ (elim (is_stranger owner (lookup "lock_token" row.entity)) [
      | true ↦ (entity_to_thread codecs row.entity, s)
      | false ↦ (elim (release_replacement codecs turn.now status values row.entity) [
        | raises x ↦ (raises x, s)
        | returns replacement ↦ replace_row id turn retry replacement (cas_etag row) s
      ])
    ])
  ]

  unfoldable pub release_attempts :
      ℕ
      → (ℕ → Turn T.State)
      → String
      → ThreadStatus
      → Option (Dict String V)
      → Option String
      → T.State
      → Result T (Thread V)
  unfolding release_attempt
  release_attempts zero turns id status values owner s = (raises (release_error id), s)
  release_attempts (suc n) turns id status values owner s =
      release_attempt id status values owner (turns n)
        (release_attempts n turns id status values owner) ((turns n).before s)

  -- `release_run_lock`
  unfoldable pub release_run_lock :
      (ℕ → Turn T.State)
      → String
      → ThreadStatus
      → Option (Dict String V)
      → Option String
      → T.State
      → Result T (Thread V)
  unfolding release_attempts
  release_run_lock turns id status values owner s = elim (status == busy) [
    | true ↦ (raises (value_error "release_run_lock cannot set status to 'busy'"), s)
    | false ↦ release_attempts 3 turns id status values owner s
  ]

  unfoldable pub renewal_result : Outcome {0, 0} TableError Unit × T.State → Result T Bool
  renewal_result (returns done, s) = (returns true, s)
  renewal_result (raises modified, s) = (returns false, s)
  renewal_result (raises x, s) = (raises x, s)

  -- `renew_run_lock`
  unfoldable pub renew_run_lock : Turn T.State → String → String → T.State → Result T Bool
  unfolding renewal_result
  renew_run_lock turn id owner s =
      let read = turn.before s in
      elim (T.get_entity read id) [
        | raises x ↦ (raises x, read)
        | returns row ↦ (elim (is_stranger (some owner) (lookup "lock_token" row.entity)) [
          | true ↦ (returns false, read)
          | false ↦ renewal_result (
              T.update_entity (turn.between read) merges (renew_patch id turn.now)
                (renewal_etag row))
        ])
      ]
