-- ===== src/Tables/Tests/Progress.antt =====
-- The journal answers, and a call of stores/azure_table.py on it that nobody disturbs.
use azure_functions_langgrap.Base.{
  String, true, false, none, ◌==◌, some, ◌∷◌, string_eq, ◌≡◌, refl, returns, ==-refl,
}
use azure_functions_langgrap.Base.Dict.{lookup, insert}
use azure_functions_langgrap.Base.Text.Slices.{utf16_size}
use azure_functions_langgrap.Base.Text.Decimal.{str}
use azure_functions_langgrap.Platform.Threads.{status_eq}
use azure_functions_langgrap.Platform.Stores.{new_thread, locked}
use azure_functions_langgrap.Tables.{text, Entity}
use azure_functions_langgrap.Tables.Json.{read_json, value_size, validate_entity, validate_from}
use azure_functions_langgrap.Tables.Threads.{
  entity_to_thread, read_status, read_text, read_time, as_time, as_key,
}
use azure_functions_langgrap.Tables.Service.{Mode, written, merge, cas_etag}
use azure_functions_langgrap.Tables.Service.Journal.{
  Journal, stored, content, place, version, is_current, read_row, write_row, update_row,
  journal_client,
}
use azure_functions_langgrap.Tables.Service.Journal.Content.{journal_view}
use azure_functions_langgrap.Tables.Service.Journal.Laws.{journal-IsTable}
use azure_functions_langgrap.Tables.Store.{try_acquire_run_lock}
use azure_functions_langgrap.Tables.Store.Progress.{IsAvailable, try_acquire_run_lock-Acquires}
use azure_functions_langgrap.Tables.Tests.{codecs, decode}
use azure_functions_langgrap.Tables.Tests.Calls.{new_entity, start, calm}

version-IsCurrent :
    (s : Journal) (k : String) (e : Entity)
    → content s k ≡ some e
    → is_current (version s k) (version s k) ≡ true
unfolding version
version-IsCurrent s k e found = rw (version, found) (==-refl (str (place s k)))

accepted :
    (s : Journal) (k : String) (e : Entity) (mode : Mode) (patch : Entity)
    → content s k ≡ some e
    → lookup "RowKey" patch ≡ some (text k)
    → update_row s mode patch (version s k) (lookup "RowKey" patch)
      ≡ (returns tt, (k, some (written mode e patch)) ∷ s)
unfolding update_row write_row
accepted s k e mode patch found keyed =
    rw (keyed, update_row, found, write_row, version-IsCurrent s k e found) refl

journal-IsAvailable : IsAvailable journal_client journal_view
unfolding read_row cas_etag version
journal-IsAvailable = record {
  reads = λ s k e found. (
    record { entity = e; metadata = some (version s k) },
    rw found refl,
    rw (cas_etag, version, found) refl,
  );
  writes = λ s k e mode patch found keyed.
      ((k, some (written mode e patch)) ∷ s, accepted s k e mode patch found keyed);
}

try_acquire_run_lock-Acquires_example :
    (s' : Journal) × (try_acquire_run_lock codecs journal_client calm "t1" (some "agent") start
      ≡ (returns (some (locked 30 "mine" (some "agent") (new_thread 10 "t1" none))), s'))
    × (e' : Entity) × (content s' "t1" ≡ some e')
    × (entity_to_thread codecs e'
        ≡ returns (locked 30 "mine" (some "agent") (new_thread 10 "t1" none)))
    × ((j : String) → "t1" == j ≡ false → content s' j ≡ content start j)
unfolding content stored entity_to_thread read_json lookup insert as_key as_time read_time
    read_status read_text validate_entity validate_from value_size merge utf16_size decode
try_acquire_run_lock-Acquires_example =
    try_acquire_run_lock-Acquires codecs journal_client journal_view journal-IsTable
      journal-IsAvailable calm start (refl, refl) "t1" (some "agent") (stored "t1" new_entity)
      (new_thread 10 "t1" none) refl refl refl refl refl
