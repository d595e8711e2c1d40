-- ===== src/Tables/Tests/Calls.antt =====
-- Calls of stores/azure_table.py on a journal with one thread, with and without races.
use azure_functions_langgrap.Base.{
  ℕ, zero, suc, String, true, Option, none, some, [], ◌∷◌, string_eq, refl, returns, ◌≡◌, ◌∙◌, ap,
  sym,
}
use azure_functions_langgrap.Base.Dict.{Dict, lookup, insert}
use azure_functions_langgrap.Base.Text.Slices.{utf16_size}
use azure_functions_langgrap.Base.Text.Decimal.{str}
use azure_functions_langgrap.Platform.Threads.{Thread, idle, status_eq}
use azure_functions_langgrap.Platform.Stores.{Changes, new_thread, locked, unlocked, updated}
use azure_functions_langgrap.Tables.{text, time, Entity}
use azure_functions_langgrap.Tables.Json.{
  write_json, put_encoded, clear, read_json, value_size, validate_entity, validate_from,
}
use azure_functions_langgrap.Tables.Threads.{
  entity_to_thread, read_status, read_text, read_time, as_time, as_key,
}
use azure_functions_langgrap.Tables.Service.{merge, cas_etag, renewal_etag, update_etag}
use azure_functions_langgrap.Tables.Service.Journal.{
  Journal, stored, content, place, version, read_row, write_row, update_row, journal_client,
}
use azure_functions_langgrap.Tables.Service.Journal.Content.{journal_view}
use azure_functions_langgrap.Tables.Service.Journal.Laws.{journal-IsTable}
use azure_functions_langgrap.Tables.Requests.{
  Turn, after_write, release_replacement, update_replacement,
}
use azure_functions_langgrap.Tables.Store.{
  try_acquire_run_lock, acquire_attempts, acquire_attempt, release_run_lock, release_attempts,
  release_attempt, replace_row, update, update_attempts, update_attempt, renew_run_lock,
  renewal_result,
}
use azure_functions_langgrap.Tables.Store.Release
use azure_functions_langgrap.Tables.Store.Release.{release_run_lock-Commits}
use azure_functions_langgrap.Tables.Store.Update
use azure_functions_langgrap.Tables.Store.Update.{update-Commits}
use azure_functions_langgrap.Tables.Store.Renew.{Answered, renew_run_lock-Answered}
use azure_functions_langgrap.Tables.Store.Abstraction.{AreMoves, AreLegible}
use azure_functions_langgrap.Tables.Store.Sweep.Owner.{Others-quiet}
use azure_functions_langgrap.Tables.Service.Etags.{some-injective}
use azure_functions_langgrap.Tables.Store.Acquire.{Ends, try_acquire_run_lock-Ends}
use azure_functions_langgrap.Tables.Tests.{codecs, codecs-AreLossless, encode, decode, encode_none}

abbrev pub new_entity : Entity
new_entity =
    ("PartitionKey", text "thread")
    ∷ ("RowKey", text "t1")
    ∷ ("created_at", time 10)
    ∷ ("updated_at", time 10)
    ∷ ("status", text "idle")
    ∷ ("interrupts_json", text "{}")
    ∷ []

abbrev pub start : Journal
start = ("t1", some new_entity) ∷ []

-- Another caller's metadata, written in between.
abbrev meddled : Entity
meddled = insert "metadata_json" (text "e") new_entity

-- The first of three attempts loses a race.
racing : ℕ → Turn Journal
racing (suc (suc n)) = record {
  before = λ s. s;
  between = λ s. ("t1", some meddled) ∷ s;
  now = 20;
  token = "first";
}
racing n = record { before = λ s. s; between = λ s. s; now = 30; token = "second" }

racing-AreMoves : AreMoves journal_client journal_view racing
unfolding racing
racing-AreMoves (suc (suc n)) s = (([], refl), (("t1", some meddled) ∷ [], refl))
racing-AreMoves (suc zero) s = (([], refl), ([], refl))
racing-AreMoves zero s = (([], refl), ([], refl))

-- Nobody interferes.
abbrev pub still : Turn Journal
still = record { before = λ s. s; between = λ s. s; now = 30; token = "mine" }

abbrev pub calm : ℕ → Turn Journal
calm n = still

pub calm-AreMoves : AreMoves journal_client journal_view calm
calm-AreMoves i s = (([], refl), ([], refl))

-- On a quiet table the row of a thread stays as it is.
pub calm-AreLegible :
    (s : Journal) (e : Entity) (t : Thread String)
    → content s "t1" ≡ some e
    → entity_to_thread codecs e ≡ returns t
    → AreLegible codecs journal_client journal_view calm "t1" s
calm-AreLegible s e t found decoded u x moved there = (
  t,
  ap (entity_to_thread codecs) (
        some-injective x e (
          sym there
          ∙ ap (λ (y : Journal). content y "t1") (Others-quiet calm (λ i y. (refl, refl)) moved)
          ∙ found))
      ∙ decoded,
)

still_moves :
    (s : Journal)
    → journal_view.Follows s (still.before s) × journal_view.Follows s (still.between s)
still_moves s = (([], refl), ([], refl))

abbrev acquired : Thread String
acquired = record (locked 30 "second" (some "agent") (new_thread 10 "t1" (some []))) {
  created_at = 10;
}

try_acquire_run_lock_example :
    Ends codecs journal_client journal_view journal-IsTable racing racing-AreMoves "t1"
      (some "agent")
      3
      (returns (some acquired))
      start
      start
      (try_acquire_run_lock codecs journal_client racing "t1" (some "agent") start).1
unfolding try_acquire_run_lock acquire_attempts acquire_attempt after_write racing read_row content
    stored place version entity_to_thread read_json lookup insert as_key as_time read_time
    read_status read_text validate_entity validate_from value_size merge utf16_size update_row
    write_row cas_etag str encode decode encode_none
try_acquire_run_lock_example =
    try_acquire_run_lock-Ends codecs journal_client journal_view journal-IsTable racing
      racing-AreMoves "t1" (some "agent") start
      (try_acquire_run_lock codecs journal_client racing "t1" (some "agent") start).1
      (returns (some acquired)) refl

-- The thread under the lock of "run", as it was written at 20.
abbrev pub held_entity : Entity
held_entity =
    ("PartitionKey", text "thread")
    ∷ ("RowKey", text "t1")
    ∷ ("created_at", time 10)
    ∷ ("updated_at", time 20)
    ∷ ("status", text "busy")
    ∷ ("interrupts_json", text "{}")
    ∷ ("lock_token", text "run")
    ∷ ("lock_expires_at", time 80)
    ∷ []

abbrev pub held : Journal
held = ("t1", some held_entity) ∷ []

abbrev pub held_thread : Thread String
held_thread = record (locked 20 "run" none (new_thread 10 "t1" none)) { created_at = 10 }

pub held-AreLegible : AreLegible codecs journal_client journal_view calm "t1" held
unfolding content stored entity_to_thread read_json lookup insert as_key as_time read_time
    read_status read_text decode
held-AreLegible = calm-AreLegible held (stored "t1" held_entity) held_thread refl refl

abbrev pub answer : Option (Dict String String)
answer = some (("k", "42") ∷ [])

release_run_lock_example :
    Release.Returned codecs codecs-AreLossless journal_client journal_view journal-IsTable calm
      calm-AreMoves "t1" idle answer
      (some "run")
      (unlocked 30 idle answer held_thread)
      held
      (release_run_lock codecs journal_client calm "t1" idle answer (some "run") held).1
unfolding release_run_lock release_attempts release_attempt release_replacement replace_row
    after_write read_row content stored place version entity_to_thread read_json lookup insert
    as_key as_time read_time read_status read_text validate_entity validate_from value_size
    utf16_size update_row write_row cas_etag str encode decode encode_none write_json put_encoded
    clear
release_run_lock_example =
    release_run_lock-Commits codecs codecs-AreLossless journal_client journal_view journal-IsTable
      calm calm-AreMoves "t1" idle answer (some "run") held
      (release_run_lock codecs journal_client calm "t1" idle answer (some "run") held).1
      (unlocked 30 idle answer held_thread) held-AreLegible refl

abbrev changes : Changes String
changes = record {
  metadata = some (("k", "new") ∷ []);
  status = none;
  values = none;
  interrupts = none;
  assistant_id = some "agent";
}

update_example :
    Update.Returned codecs codecs-AreLossless journal_client journal_view journal-IsTable calm
      calm-AreMoves "t1" changes
      (updated 30 changes held_thread)
      held
      (update codecs journal_client calm "t1" changes held).1
unfolding update update_attempts update_attempt update_replacement replace_row after_write read_row
    content stored place version entity_to_thread read_json lookup insert as_key as_time read_time
    read_status read_text validate_entity validate_from value_size utf16_size update_row write_row
    update_etag str encode decode encode_none write_json put_encoded clear
update_example =
    update-Commits codecs codecs-AreLossless journal_client journal_view journal-IsTable calm
      calm-AreMoves "t1" changes held (update codecs journal_client calm "t1" changes held).1
      (updated 30 changes held_thread) held-AreLegible refl

renew_run_lock_example :
    Answered codecs journal_client journal_view journal-IsTable still still_moves "t1" "run" true
      held
      (renew_run_lock codecs journal_client still "t1" "run" held).1
unfolding renew_run_lock read_row content stored place version lookup insert update_row write_row
    renewal_etag str renewal_result
renew_run_lock_example =
    renew_run_lock-Answered codecs journal_client journal_view journal-IsTable still still_moves
      "t1" "run" held (renew_run_lock codecs journal_client still "t1" "run" held).1 true
      held-AreLegible refl
