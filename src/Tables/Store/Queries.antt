-- ===== src/Tables/Store/Queries.antt =====
-- `search` and `count` of stores/azure_table.py.
use azure_functions_langgrap.Base.{
  ℕ, String, Bool, true, false, Option, none, some, List, [], ◌∷◌, Eq, if◌then◌else◌, Outcome,
  returns, raises, ◌>>=◌, filter, all, length, take, drop, ℤ, is_negative, to_ℕ,
}
use azure_functions_langgrap.Base.Dict.{Dict}
use azure_functions_langgrap.Platform.Threads.{Thread, ThreadStatus}
use azure_functions_langgrap.Platform.Stores.Queries.{has_entry, newest_first}
use azure_functions_langgrap.Tables.{TableError, value_error}
use azure_functions_langgrap.Tables.Threads.{Codecs, entity_to_thread, status_text}
use azure_functions_langgrap.Tables.Service.{TableClient, Row}

abbrev pub status_filter : Option ThreadStatus → Option String
status_filter none = none
status_filter (some s) = some (status_text s)

module _ {V : Type 0} (codecs : Codecs V) where
  -- `[self._entity_to_thread(entity) for entity in entities]`
  unfoldable pub threads_of : List Row → Outcome TableError (List (Thread V))
  threads_of [] = returns []
  threads_of (row ∷ rows) = do
    t ← entity_to_thread codecs row.entity
    ts ← threads_of rows
    returns (t ∷ ts)

  -- `_query_entities`
  unfoldable pub query_threads :
      (T : TableClient) → Option ThreadStatus → T.State → Outcome TableError (List (Thread V))
  unfolding threads_of
  query_threads T status s = T.query_entities s (status_filter status) none >>= threads_of

module _ {V : Type 0} ⦃e : Eq V⦄ where
  -- `_metadata_matches`
  abbrev pub metadata_matches : Option (Dict String V) → Thread V → Bool
  metadata_matches none t = true
  metadata_matches (some metadata) t = elim t.metadata [
    | none ↦ false
    | some held ↦ all (has_entry held) metadata
  ]

module _ {V : Type 0} ⦃e : Eq V⦄ (codecs : Codecs V) (T : TableClient) where
  -- `search`
  unfoldable pub search :
      Option (Dict String V)
      → Option ThreadStatus
      → ℤ
      → ℤ
      → T.State
      → Outcome TableError (List (Thread V))
  unfolding query_threads
  search metadata status limit offset s =
      if is_negative limit
      then raises (value_error "limit must be non-negative")
      else if is_negative offset
      then raises (value_error "offset must be non-negative")
      else (do
        threads ← query_threads codecs T status s
        returns (
            take (drop (newest_first (filter (metadata_matches metadata) threads)) (to_ℕ offset))
              (to_ℕ limit)))

  -- `count`
  unfoldable pub count :
      Option (Dict String V) → Option ThreadStatus → T.State → Outcome TableError ℕ
  unfolding query_threads
  count metadata status s = do
    threads ← query_threads codecs T status s
    returns (length (filter (metadata_matches metadata) threads))
