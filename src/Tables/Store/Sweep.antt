-- ===== src/Tables/Store/Sweep.antt =====
-- `reset_stale_locks` of stores/azure_table.py. Its turns are one for each row: what other callers
-- do from the query, or from the row before, to the write, and the clock.
pub mod Resets
pub mod Owner
use azure_functions_langgrap.Base.{
  ℕ, suc, ◌+◌, String, Bool, true, false, not, ◌||◌, Option, none, some, List, [], ◌∷◌, ◌==◌,
  string_eq, if◌then◌else◌, Outcome, returns, raises, ◌>>=◌, ltb, to_nat, ℤ, is_negative, to_ℕ,
}
use azure_functions_langgrap.Base.Dict.{lookup}
use azure_functions_langgrap.Platform.Threads.{ThreadStatus, idle, error, status_eq}
use azure_functions_langgrap.Tables.{Property, time, TableError, value_error, modified, not_found}
use azure_functions_langgrap.Tables.Json.{property_at}
use azure_functions_langgrap.Tables.Threads.{as_key}
use azure_functions_langgrap.Tables.Service.{TableClient, Row, merges, cas_etag}
use azure_functions_langgrap.Tables.Requests.{Turn, Result, reset_patch}

-- A `datetime` that is before `now - timedelta(seconds=older)`.
abbrev pub is_old : ℕ → ℕ → Option Property → Bool
is_old now older (some (time updated_at)) = ltb (updated_at + older) now
is_old now older _ = false

module _ (T : TableClient) where
  -- A row that was modified or deleted since the query is passed over.
  unfoldable pub swept : Outcome {0, 0} TableError Unit × T.State → Result T Bool
  swept (returns done, s) = (returns true, s)
  swept (raises modified, s) = (returns false, s)
  swept (raises not_found, s) = (returns false, s)
  swept (raises x, s) = (raises x, s)

  unfoldable pub sweep_old :
      Turn T.State → ThreadStatus → Row → Option String → T.State → Result T Bool
  unfolding swept
  sweep_old turn status row none s = (returns false, s)
  sweep_old turn status row (some tag) s = elim (property_at "RowKey" row.entity >>= as_key) [
    | raises x ↦ (raises x, s)
    | returns key ↦
        swept (T.update_entity (turn.between s) merges (reset_patch key turn.now status) (some tag))
  ]

  -- One pass of the loop: whether the row was reset.
  unfoldable pub sweep_row : Turn T.State → ℕ → ℕ → ThreadStatus → Row → T.State → Result T Bool
  unfolding sweep_old
  sweep_row turn now older status row s = elim (is_old now older (lookup "updated_at" row.entity)) [
    | true ↦ sweep_old turn status row (cas_etag row) s
    | false ↦ (returns false, s)
  ]

  unfoldable pub counted_on : ℕ → (ℕ → T.State → Result T ℕ) → Result T Bool → Result T ℕ
  counted_on count rest (raises x, s) = (raises x, s)
  counted_on count rest (returns reset, s) = rest (count + to_nat reset) s

  unfoldable pub sweep_rows :
      (ℕ → Turn T.State) → ℕ → ℕ → ThreadStatus → ℕ → List Row → ℕ → T.State → Result T ℕ
  unfolding sweep_row counted_on
  sweep_rows turns now older status i [] count s = (returns count, s)
  sweep_rows turns now older status i (row ∷ rows) count s =
      counted_on count (sweep_rows turns now older status (suc i) rows)
        (sweep_row (turns i) now older status row s)

  -- `reset_stale_locks`; `now` is the clock of the cutoff.
  unfoldable pub reset_stale_locks :
      (ℕ → Turn T.State) → ℕ → ℤ → ThreadStatus → T.State → Result T ℕ
  unfolding sweep_rows
  reset_stale_locks turns now older status s =
      if is_negative older
      then (raises (value_error "older_than_seconds must be non-negative"), s)
      else if not (status == idle || status == error)
      then (raises (value_error "status must be 'idle' or 'error'"), s)
      else (elim (T.query_entities s (some "busy") (some ("RowKey" ∷ "updated_at" ∷ []))) [
        | raises x ↦ (raises x, s)
        | returns rows ↦ sweep_rows turns now (to_ℕ older) status 0 rows 0 s
      ])
