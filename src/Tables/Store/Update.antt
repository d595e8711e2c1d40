-- ===== src/Tables/Store/Update.antt =====
-- `update` of stores/azure_table.py against that of `InMemoryThreadStore`.
use azure_functions_langgrap.Base.{
  ℕ, zero, suc, String, some, string_eq, ◌≡◌, refl, arith, Outcome, returns, raises, Outcome-cases,
  inl, inr,
}
use azure_functions_langgrap.Base.Dict.{lookup, insert}
use azure_functions_langgrap.Platform.Threads.{Thread}
use azure_functions_langgrap.Platform.Stores.{Store, StoreError, Changes, updated}
use azure_functions_langgrap.Platform.Stores.{update as update_in_memory}
use azure_functions_langgrap.Tables.{
  TableError, limit_exceeded, type_error, value_error, key_error, bound_to, release_error, modified,
  not_found, service_error,
}
use azure_functions_langgrap.Tables.Threads.{Codecs}
use azure_functions_langgrap.Tables.Threads.Decodes.{Decodes-entity_to_thread}
use azure_functions_langgrap.Tables.Service.{TableClient, View, IsTable, update_etag}
use azure_functions_langgrap.Tables.Service.Etags.{update_etag-Carries}
use azure_functions_langgrap.Tables.Requests.{Turn, Result, update_replacement}
use azure_functions_langgrap.Tables.Store.{update_attempt, update_attempts, update}
use azure_functions_langgrap.Tables.Store.Writes.{AreLossless}
use azure_functions_langgrap.Tables.Store.Updated.{
  update_replacement-Decodes, update_replacement-row_key,
}
use azure_functions_langgrap.Tables.Store.Abstraction.{
  AreMoves, Others, still, moved_before, AreLegible, Commits,
}
use azure_functions_langgrap.Tables.Store.Replace.{replace_row-Commits}

update_in_memory_there :
    {V : Type 0} (now : ℕ) (id : String) (c : Changes V) (t : Thread V) (m : Store V)
    → lookup id m ≡ some t
    → update_in_memory now id c m ≡ (returns (updated now c t), insert id (updated now c t) m)
unfolding update_in_memory
update_in_memory_there now id c t m there = rw there refl

module _ {V : Type 0} (codecs : Codecs V) (lossless : AreLossless codecs) (T : TableClient)
    (w : View T) (table : IsTable T w) (turns : ℕ → Turn T.State) (moves : AreMoves T w turns)
    (id : String) (c : Changes V) where
  abbrev step : ℕ → Store V → Outcome StoreError (Thread V) × Store V
  step i m = update_in_memory (turns i).now id c m

  abbrev pub Returned : Thread V → T.State → T.State → Type 0
  Returned result s s' = Commits codecs T w turns id step (returns result) s s'

  module _ (s : T.State) (legible : AreLegible codecs T w turns id s) where
    -- A read that fails: only a modified row leads to another attempt.
    unread :
        (i : ℕ) (retry : T.State → Result T (Thread V)) (r s' : T.State) (result : Thread V)
        (x : TableError)
        → T.get_entity r id ≡ raises x
        → ((u : T.State) → Others turns s u → retry u ≡ (returns result, s') → Returned result s s')
        → Others turns s r
        → update_attempt codecs T id c (turns i) retry r ≡ (returns result, s')
        → Returned result s s'
    unfolding update_attempt
    unread i retry r s' result modified failed again later h =
        again r later (rw (update_attempt, failed) at h)
    unread i retry r s' result not_found failed again later h = absurd (ground (arith, failed, h))
    unread i retry r s' result (limit_exceeded a b c') failed again later h =
        absurd (ground (arith, failed, h))
    unread i retry r s' result (type_error a) failed again later h =
        absurd (ground (arith, failed, h))
    unread i retry r s' result (value_error a) failed again later h =
        absurd (ground (arith, failed, h))
    unread i retry r s' result (key_error a) failed again later h =
        absurd (ground (arith, failed, h))
    unread i retry r s' result (bound_to a b) failed again later h =
        absurd (ground (arith, failed, h))
    unread i retry r s' result (release_error a) failed again later h =
        absurd (ground (arith, failed, h))
    unread i retry r s' result (service_error a) failed again later h =
        absurd (ground (arith, failed, h))

    update_attempt-Commits :
        (i : ℕ) (retry : T.State → Result T (Thread V)) (r s' : T.State) (result : Thread V)
        → ((u : T.State) → Others turns s u → retry u ≡ (returns result, s') → Returned result s s')
        → Others turns s r
        → update_attempt codecs T id c (turns i) retry r ≡ (returns result, s')
        → Returned result s s'
    unfolding update_attempt
    update_attempt-Commits i retry r s' result again later h =
        elim (Outcome-cases (T.get_entity r id)) [
          | inr (x, failed) ↦ unread i retry r s' result x failed again later h
          | inl (row, read) ↦
              elim (Outcome-cases (update_replacement codecs (turns i).now c row.entity)) [
                | inr (x, failed) ↦ absurd (ground (arith, read, failed, h))
                | inl (replacement, wrote) ↦
                    let (t, decoded) =
                      legible r row.entity later (table.found-get_entity r id row read) in
                    let d = Decodes-entity_to_thread codecs row.entity t decoded in
                    let now = (turns i).now in
                    replace_row-Commits codecs T w table turns moves id step i retry s r s' row
                      (update_etag row) replacement t (updated now c t) result later read
                      (update_etag-Carries row) d
                      (update_replacement-row_key codecs lossless row.entity t d now c replacement
                        wrote)
                      (λ valid new.
                        update_replacement-Decodes codecs lossless row.entity t d now c replacement
                          new wrote valid)
                      (λ m there. update_in_memory_there now id c t m there) again
                      (λ committed. committed) (rw (update_attempt, read, wrote) at h)
              ]
        ]

    update_attempts-Commits :
        (n : ℕ) (u s' : T.State) (result : Thread V)
        → Others turns s u
        → update_attempts codecs T n turns id c u ≡ (returns result, s')
        → Returned result s s'
    unfolding update_attempts
    update_attempts-Commits zero u s' result later h = absurd (ground (arith, h))
    update_attempts-Commits (suc n) u s' result later h =
        update_attempt-Commits n (update_attempts codecs T n turns id c) ((turns n).before u) s'
          result (λ x after ended. update_attempts-Commits n x s' result after ended)
          (moved_before n later) h

  -- Whatever other callers do between its requests, if they leave rows of the thread that read as
  -- threads, a call of `update` that returns has made the in-memory store's change of the thread in one step, at a moment after its start: the fields
  -- that are given are set, those that are not are as they were at that moment, no change of
  -- another caller is lost, and no other thread changes.
  pub update-Commits :
      (s s' : T.State) (result : Thread V)
      → AreLegible codecs T w turns id s
      → update codecs T turns id c s ≡ (returns result, s')
      → Returned result s s'
  unfolding update
  update-Commits s s' result legible h = update_attempts-Commits s legible 3 s s' result still h
