-- ===== src/Tables/Tests/Rows.antt =====
-- Sweeps, new and removed rows, and queries of stores/azure_table.py on a journal.
use azure_functions_langgrap.Base.{
  String, Option, none, some, [], ◌∷◌, ◌==◌, string_eq, ◌≡◌, ◌↔◌, refl, sym, ap, ◌∙◌, returns, pos,
  Bool-cases, inl, inr, ==_iff,
}
use azure_functions_langgrap.Base.Dict.{lookup, insert}
use azure_functions_langgrap.Base.Text.Slices.{utf16_size}
use azure_functions_langgrap.Base.Text.Decimal.{str}
use azure_functions_langgrap.Platform.Threads.{Thread, idle, error, status_eq}
use azure_functions_langgrap.Platform.Stores.{Store, new_thread, unlocked}
use azure_functions_langgrap.Platform.Stores.{
  create as create_in_memory, delete as delete_in_memory,
}
use azure_functions_langgrap.Tables.{text, time, Entity}
use azure_functions_langgrap.Tables.Json.{
  write_json, put_encoded, clear, read_json, value_size, validate_entity, validate_from,
}
use azure_functions_langgrap.Tables.Json.Capacity.{Fits, validate_entity_lem}
use azure_functions_langgrap.Tables.Threads.{
  entity_to_thread, thread_to_entity, read_status, read_text, read_time, as_time, as_key,
}
use azure_functions_langgrap.Tables.Service.{merge, cas_etag}
use azure_functions_langgrap.Tables.Service.Journal.{
  Journal, stored, content, place, version, read_row, write_row, update_row, add_row, remove_row,
  rows_under, keys, journal_client,
}
use azure_functions_langgrap.Tables.Service.Journal.Content.{journal_view}
use azure_functions_langgrap.Tables.Service.Journal.Laws.{journal-IsTable}
use azure_functions_langgrap.Tables.Service.Journal.Listing.{journal-IsQuery}
use azure_functions_langgrap.Tables.Requests.{after_write, release_replacement}
use azure_functions_langgrap.Tables.Store.{
  create, created_at, delete, deleted_at, release_run_lock, release_attempts, release_attempt,
  replace_row,
}
use azure_functions_langgrap.Tables.Store.Abstraction.{Shows, thread_of, still}
use azure_functions_langgrap.Tables.Store.Entities.{entity_to_thread-thread_to_entity}
use azure_functions_langgrap.Tables.Store.Rows.{create-Shows, delete-Shows}
use azure_functions_langgrap.Tables.Store.Sweep.{
  reset_stale_locks, sweep_rows, sweep_row, sweep_old, swept, counted_on,
}
use azure_functions_langgrap.Tables.Store.Sweep.Resets.{Sweeps, reset_stale_locks-Sweeps}
use azure_functions_langgrap.Tables.Store.Sweep.Owner.{reset-keeps_owner}
use azure_functions_langgrap.Tables.Tests.{codecs, codecs-AreLossless, encode, decode, encode_none}
use azure_functions_langgrap.Tables.Tests.Calls.{
  calm, calm-AreMoves, held-AreLegible, held, held_entity, held_thread, answer,
}

-- The sweep's limit and the clock of its cutoff: the lock of 20 is old.
reset_stale_locks_example :
    Sweeps journal_client journal_view 100 5 error calm held held
      (reset_stale_locks journal_client calm 100 (pos 5) error held).1
      1
unfolding reset_stale_locks sweep_rows sweep_row sweep_old swept counted_on read_row content stored
    place version lookup insert update_row write_row cas_etag str rows_under keys as_key
reset_stale_locks_example =
    reset_stale_locks-Sweeps journal_client journal_view 100 5 error journal-IsTable calm
      calm-AreMoves journal-IsQuery held
      (reset_stale_locks journal_client calm 100 (pos 5) error held).1 (pos 5) 1 refl refl

abbrev swept_journal : Journal
swept_journal = (reset_stale_locks journal_client calm 100 (pos 5) error held).1

abbrev swept_thread : Thread String
swept_thread = record held_thread { status = error; updated_at = 30 }

-- The run whose lock the sweep took still releases it.
reset-keeps_owner_example :
    (idle ≡ idle)
    × (◌≡◌ {A = Option String} none none)
    × (e : Entity) × (content
          (release_run_lock codecs journal_client calm "t1" idle answer
            (some "run")
            swept_journal).1
          "t1"
        ≡ some e)
    × (entity_to_thread codecs e ≡ returns (unlocked 30 idle answer swept_thread))
unfolding reset_stale_locks sweep_rows sweep_row sweep_old swept counted_on read_row content stored
    place version lookup insert merge update_row write_row cas_etag str rows_under keys as_key
    release_run_lock release_attempts release_attempt release_replacement replace_row after_write
    entity_to_thread read_json as_time read_time read_status read_text validate_entity validate_from
    value_size utf16_size encode decode encode_none write_json put_encoded clear
reset-keeps_owner_example =
    reset-keeps_owner codecs journal_client journal_view journal-IsTable calm (λ i s. (refl, refl))
      codecs-AreLossless journal-IsQuery 100 (pos 5) error 1 held swept_journal
      (release_run_lock codecs journal_client calm "t1" idle answer (some "run") swept_journal).1
      "t1" "run" (stored "t1" held_entity) held_thread idle answer
      (unlocked 30 idle answer swept_thread) refl refl refl refl refl refl

abbrev described : Thread String
described = new_thread 10 "t1" (some (("k", "demo") ∷ []))

abbrev described_entity : Entity
described_entity =
    ("PartitionKey", text "thread")
    ∷ ("RowKey", text "t1")
    ∷ ("created_at", time 10)
    ∷ ("updated_at", time 10)
    ∷ ("status", text "idle")
    ∷ ("interrupts_json", text "{}")
    ∷ ("metadata_json", text "kdemo")
    ∷ []

entity_to_thread-thread_to_entity_example :
    entity_to_thread codecs described_entity ≡ returns described
unfolding thread_to_entity write_json put_encoded clear encode encode_none utf16_size insert
    validate_entity validate_from value_size
entity_to_thread-thread_to_entity_example =
    entity_to_thread-thread_to_entity codecs codecs-AreLossless described described_entity refl refl

create-Shows_example :
    ((create_in_memory 10 "t1" (some (("k", "demo") ∷ [])) []).0 ≡ returns described)
    × Shows codecs journal_client journal_view
        (create codecs journal_client 10 "t1" (some (("k", "demo") ∷ [])) []).1
        (create_in_memory 10 "t1" (some (("k", "demo") ∷ [])) []).1
unfolding create created_at thread_to_entity write_json put_encoded clear encode encode_none
    utf16_size insert validate_entity validate_from value_size entity_to_thread read_json lookup
    as_key as_time read_time read_status read_text decode add_row content thread_of
create-Shows_example =
    create-Shows codecs journal_client journal_view journal-IsTable codecs-AreLossless 10 "t1"
      (some (("k", "demo") ∷ [])) []
      (create codecs journal_client 10 "t1" (some (("k", "demo") ∷ [])) []).1 described [] refl
      (λ k. refl)

abbrev held_store : Store String
held_store = ("t1", held_thread) ∷ []

held-Shows : Shows codecs journal_client journal_view held held_store
unfolding content stored lookup insert thread_of entity_to_thread read_json as_key as_time read_time
    read_status read_text decode
held-Shows k = elim (Bool-cases ("t1" == k)) [
  | inl same ↦
      ap (λ (j : String). lookup j held_store) (sym ((==_iff "t1" k).0 same))
      ∙ ap (λ (j : String). thread_of codecs (content held j)) ((==_iff "t1" k).0 same)
  | inr apart ↦ rw (content, lookup, apart) refl
]

delete-Shows_example :
    ((delete_in_memory "t1" held_store).0 ≡ returns tt)
    × Shows codecs journal_client journal_view
        (delete codecs journal_client "t1" held).1
        (delete_in_memory "t1" held_store).1
unfolding content stored delete deleted_at remove_row
delete-Shows_example =
    delete-Shows codecs journal_client journal_view journal-IsTable "t1" held
      (delete codecs journal_client "t1" held).1 held_store
      (λ e there. held-AreLegible held e still there) refl held-Shows

validate_entity_lem_example :
    (validate_entity 16 described_entity ≡ returns tt) ↔ Fits 16 4096 1 described_entity
validate_entity_lem_example = validate_entity_lem 16 described_entity
