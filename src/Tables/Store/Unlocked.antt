-- ===== src/Tables/Store/Unlocked.antt =====
-- The entity that `release_run_lock` of stores/azure_table.py puts in the place of the one that
-- it read: how it reads as a thread.
use azure_functions_langgrap.Base.{
  ℕ, String, true, false, Option, none, some, [], ◌==◌, string_eq, ◌≡◌, refl, ◌∙◌, ap, sym, returns,
  filter, ==-false_of_ne, if◌then◌else◌,
}
use azure_functions_langgrap.Base.Dict.{Dict, lookup, insert, lookup-insert, lookup-filter_key}
use azure_functions_langgrap.Base.Text.Slices.{◌+++◌, diverge, append_nil}
use azure_functions_langgrap.Platform.Threads.{Thread, ThreadStatus}
use azure_functions_langgrap.Platform.Stores.{unlocked}
use azure_functions_langgrap.Tables.{text, time, Entity}
use azure_functions_langgrap.Tables.Json.{validate_entity, property_bytes}
use azure_functions_langgrap.Tables.Json.Names.{IsField, append-ne-diverge, is_system-field}
use azure_functions_langgrap.Tables.Json.Agree.{Agree, read_json-Agree}
use azure_functions_langgrap.Tables.Threads.{Codecs, read_status, read_text, read_time, status_text}
use azure_functions_langgrap.Tables.Threads.Decodes.{Decodes}
use azure_functions_langgrap.Tables.Service.{is_reserved}
use azure_functions_langgrap.Tables.Requests.{outlives_lock, release_replacement}
use azure_functions_langgrap.Tables.Store.Patches.{Stores, json_IsFree, read_status-status_text}
use azure_functions_langgrap.Tables.Store.Writes.{
  AreLossless, stored_json, insert-Agree, filter-Agree, write_some-Agree, write_some-read,
}

outlives_lock-field :
    (field x : String)
    → IsField field
    → diverge field "lock_token" ≡ true
    → diverge field "lock_expires_at" ≡ true
    → outlives_lock (field +++ x) ≡ true
outlives_lock-field field x own token expires =
    rw
      (
        ==-false_of_ne (field +++ x) "lock_token" (append-ne-diverge field "lock_token" x token),
        ==-false_of_ne (field +++ x) "lock_expires_at"
            (append-ne-diverge field "lock_expires_at" x expires),
        is_system-field field x own,
      )
      refl

module _ {V : Type 0} (codecs : Codecs V) (lossless : AreLossless codecs) (e : Entity)
    (t : Thread V) (d : Decodes codecs e t) where
  module _ (now : ℕ) (status : ThreadStatus) where
    abbrev unlocked_base : Entity
    unlocked_base =
        insert "updated_at" (time now)
          (insert "status" (text (status_text status)) (filter (λ entry. outlives_lock entry.0) e))

    unlocked_base-Agree :
        (field : String)
        → IsField field
        → diverge field "lock_token" ≡ true
        → diverge field "lock_expires_at" ≡ true
        → diverge field "updated_at" ≡ true
        → diverge field "status" ≡ true
        → Agree field unlocked_base e
    unlocked_base-Agree field own token expires updated_at state x =
        insert-Agree field "updated_at" (time now)
          (insert "status" (text (status_text status)) (filter (λ entry. outlives_lock entry.0) e))
          updated_at x
        ∙ insert-Agree field "status" (text (status_text status))
            (filter (λ entry. outlives_lock entry.0) e) state x
        ∙ filter-Agree field outlives_lock e (λ y. outlives_lock-field field y own token expires) x

    lookup-unlocked_base :
        (name : String)
        → lookup name unlocked_base ≡ (
            if "updated_at" == name
            then some (time now)
            else if "status" == name
            then some (text (status_text status))
            else if outlives_lock name
            then lookup name e
            else none)
    lookup-unlocked_base name =
        rw (lookup-insert, lookup-insert, lookup-filter_key outlives_lock name e) refl

    -- The entity of a released thread, as the table holds it after the replacement.
    pub release_replacement-Decodes :
        (values : Option (Dict String V)) (r new : Entity)
        → release_replacement codecs now status values e ≡ returns r
        → validate_entity property_bytes r ≡ returns tt
        → Stores new r
        → lookup "RowKey" new ≡ some (text t.thread_id)
        → Decodes codecs new (unlocked now status values t)
    unfolding release_replacement read_time read_text
    release_replacement-Decodes values r new wrote valid stored key = record {
      metadata =
          stored_json codecs.metadata "metadata_json" none new r json_IsFree.0 stored
          ∙ read_json-Agree codecs.metadata "metadata_json" none r e (λ x.
            write_some-Agree codecs.values "values_json" unlocked_base r values "metadata_json"
              wrote refl x
            ∙ unlocked_base-Agree "metadata_json" (refl, refl) refl refl refl refl x)
          ∙ d.metadata;
      values =
          stored_json codecs.values "values_json" none new r json_IsFree.1 stored
          ∙ write_some-read codecs.values "values_json" unlocked_base r values none t.values r
              lossless.values (refl, refl) wrote (λ x. refl) valid
              (read_json-Agree codecs.values "values_json" none unlocked_base e
                  (unlocked_base-Agree "values_json" (refl, refl) refl refl refl refl)
                ∙ d.values);
      interrupts =
          stored_json codecs.interrupts "interrupts_json" [] new r json_IsFree.2 stored
          ∙ read_json-Agree codecs.interrupts "interrupts_json" [] r e (λ x.
            write_some-Agree codecs.values "values_json" unlocked_base r values "interrupts_json"
              wrote refl x
            ∙ unlocked_base-Agree "interrupts_json" (refl, refl) refl refl refl refl x)
          ∙ d.interrupts;
      thread_id = key;
      created_at = at "created_at" refl refl ∙ d.created_at;
      updated_at = at "updated_at" refl refl;
      lock_expires_at = ap read_time (at "lock_expires_at" refl refl);
      status = ap read_status (at "status" refl refl) ∙ read_status-status_text status;
      assistant_id = ap read_text (at "assistant_id" refl refl) ∙ d.assistant_id;
      lock_token = ap read_text (at "lock_token" refl refl);
    }
      where
        at :
            (name : String)
            → is_reserved name ≡ false
            → diverge name "values_json" ≡ true
            → lookup name new ≡ (
                if "updated_at" == name
                then some (time now)
                else if "status" == name
                then some (text (status_text status))
                else if outlives_lock name
                then lookup name e
                else none)
        at name own apart =
            stored name own
            ∙ ap (λ (n : String). lookup n r) (sym (append_nil name))
            ∙ write_some-Agree codecs.values "values_json" unlocked_base r values name wrote apart
                ""
            ∙ ap (λ (n : String). lookup n unlocked_base) (append_nil name)
            ∙ lookup-unlocked_base name

    pub release_replacement-row_key :
        (values : Option (Dict String V)) (r : Entity)
        → release_replacement codecs now status values e ≡ returns r
        → lookup "RowKey" r ≡ lookup "RowKey" e
    unfolding release_replacement
    release_replacement-row_key values r wrote =
        write_some-Agree codecs.values "values_json" unlocked_base r values "RowKey" wrote refl ""
        ∙ lookup-unlocked_base "RowKey"
