-- ===== src/Tables/Store/Entities.antt =====
-- `_thread_to_entity` and `_entity_to_thread` of stores/azure_table.py together.
use azure_functions_langgrap.Base.{
  String, true, Option, none, some, [], ◌∷◌, string_eq, ◌≡◌, refl, ◌∙◌, ap, arith, returns,
  >>=-returns, returns-injective,
}
use mathlib.Core.Path.{subst, subst⁻¹}
use azure_functions_langgrap.Base.Dict.{lookup}
use azure_functions_langgrap.Base.Text.Slices.{diverge}
use azure_functions_langgrap.Platform.Threads.{Thread}
use azure_functions_langgrap.Platform.Stores.{some_or}
use azure_functions_langgrap.Tables.{text, time, Entity}
use azure_functions_langgrap.Tables.Json.{
  Codec, read_json, write_json, validate_entity, property_bytes,
}
use azure_functions_langgrap.Tables.Json.Agree.{Agree, read_json-Agree}
use azure_functions_langgrap.Tables.Json.RoundTrip.{read_json-missing, read_json-write_json}
use azure_functions_langgrap.Tables.Threads.{
  Codecs, thread_to_entity, entity_to_thread, read_status, read_text, read_time, status_text,
  put_some, write_some, map_text,
}
use azure_functions_langgrap.Tables.Threads.Decodes.{Decodes, entity_to_thread-Decodes}
use azure_functions_langgrap.Tables.Store.Patches.{read_status-status_text}
use azure_functions_langgrap.Tables.Store.Writes.{
  AreLossless, put_some-Agree, lookup-put_some, write_given-Agree, write_some-Agree,
  write_some-read,
}

some_or-none : {A : Type 0} (o : Option A) → some_or o none ≡ o
some_or-none none = refl
some_or-none (some a) = refl

put_assistant :
    (assistant : Option String) (e : Entity)
    → lookup "assistant_id" e ≡ none
    → read_text (lookup "assistant_id" (put_some "assistant_id" (map_text assistant) e))
      ≡ returns assistant
unfolding read_text
put_assistant none e fresh = rw fresh refl
put_assistant (some a) e fresh =
    ap read_text (lookup-put_some "assistant_id" "assistant_id" (some (text a)) e)

module _ {V : Type 0} (codecs : Codecs V) (lossless : AreLossless codecs) (t : Thread V) where
  abbrev base : Entity
  base =
      ("PartitionKey", text "thread")
      ∷ ("RowKey", text t.thread_id)
      ∷ ("created_at", time t.created_at)
      ∷ ("updated_at", time t.updated_at)
      ∷ ("status", text (status_text t.status))
      ∷ []

  -- The lock's properties are not written.
  abbrev pub without_lock : Thread V
  without_lock = record t { lock_token = none; lock_expires_at = none }

  base_json :
      {A : Type 0} (codec : Codec A) (default : A)
      → (read_json codec "metadata_json" default base ≡ returns default)
        × (read_json codec "values_json" default base ≡ returns default)
  unfolding lookup
  base_json codec default = (
    read_json-missing codec "metadata_json" default base refl refl,
    read_json-missing codec "values_json" default base refl refl,
  )

  module _ (described tagged filled : Entity)
      (h0 : write_json property_bytes codecs.interrupts "interrupts_json" t.interrupts base
        ≡ returns described)
      (h1 : write_some codecs.metadata "metadata_json" t.metadata described ≡ returns tagged)
      (h2 : write_some codecs.values "values_json" t.values tagged ≡ returns filled)
      (valid : validate_entity property_bytes
          (put_some "assistant_id" (map_text t.assistant_id) filled)
        ≡ returns tt) where
    abbrev entity : Entity
    entity = put_some "assistant_id" (map_text t.assistant_id) filled

    described-Agree :
        (field : String) → diverge field "interrupts_json" ≡ true → Agree field described base
    described-Agree field apart =
        write_given-Agree codecs.interrupts "interrupts_json" base described (some t.interrupts)
          field h0 apart

    filled_at :
        (name : String)
        → diverge name "interrupts_json" ≡ true
        → diverge name "metadata_json" ≡ true
        → diverge name "values_json" ≡ true
        → Agree name filled base
    filled_at name i a b x =
        write_some-Agree codecs.values "values_json" tagged filled t.values name h2 b x
        ∙ write_some-Agree codecs.metadata "metadata_json" described tagged t.metadata name h1 a x
        ∙ described-Agree name i x

    at :
        (name : String)
        → diverge name "interrupts_json" ≡ true
        → diverge name "metadata_json" ≡ true
        → diverge name "values_json" ≡ true
        → diverge name "assistant_id" ≡ true
        → Agree name entity base
    at name i a b apart x =
        put_some-Agree name "assistant_id" (map_text t.assistant_id) filled apart x
        ∙ filled_at name i a b x

    entity-Decodes : Decodes codecs entity without_lock
    unfolding read_time read_text lookup
    entity-Decodes = record {
      metadata =
          write_some-read codecs.metadata "metadata_json" described tagged t.metadata none none
            entity lossless.metadata (refl, refl) h1
            (λ x.
              put_some-Agree "metadata_json" "assistant_id" (map_text t.assistant_id) filled refl x
              ∙ write_some-Agree codecs.values "values_json" tagged filled t.values "metadata_json"
                  h2 refl x)
            valid
            (read_json-Agree codecs.metadata "metadata_json" none described base
                (described-Agree "metadata_json" refl)
              ∙ (base_json codecs.metadata none).0)
          ∙ ap (λ (o : Option _). returns o) (some_or-none t.metadata);
      values =
          write_some-read codecs.values "values_json" tagged filled t.values none none entity
            lossless.values (refl, refl) h2
            (put_some-Agree "values_json" "assistant_id" (map_text t.assistant_id) filled refl)
            valid
            (read_json-Agree codecs.values "values_json" none tagged base (λ x.
                write_some-Agree codecs.metadata "metadata_json" described tagged t.metadata
                  "values_json" h1 refl x
                ∙ described-Agree "values_json" refl x)
              ∙ (base_json codecs.values none).1)
          ∙ ap (λ (o : Option _). returns o) (some_or-none t.values);
      interrupts =
          read_json-write_json codecs.interrupts property_bytes "interrupts_json" t.interrupts []
            base described entity lossless.interrupts (refl, refl) (omega arith) h0
            (λ x.
              put_some-Agree "interrupts_json" "assistant_id" (map_text t.assistant_id) filled refl
                x
              ∙ write_some-Agree codecs.values "values_json" tagged filled t.values
                  "interrupts_json" h2 refl x
              ∙ write_some-Agree codecs.metadata "metadata_json" described tagged t.metadata
                  "interrupts_json" h1 refl x)
            valid;
      thread_id = at "RowKey" refl refl refl refl "";
      created_at = at "created_at" refl refl refl refl "";
      updated_at = at "updated_at" refl refl refl refl "";
      lock_expires_at = ap read_time (at "lock_expires_at" refl refl refl refl "");
      status =
          ap read_status (at "status" refl refl refl refl "") ∙ read_status-status_text t.status;
      assistant_id =
          put_assistant t.assistant_id filled (filled_at "assistant_id" refl refl refl "");
      lock_token = ap read_text (at "lock_token" refl refl refl refl "");
    }

  pub thread_to_entity-Decodes :
      (e : Entity)
      → thread_to_entity codecs t ≡ returns e
      → validate_entity property_bytes e ≡ returns tt
      → Decodes codecs e without_lock
  unfolding thread_to_entity
  thread_to_entity-Decodes e wrote valid =
      let (described, h0, r0) =
        >>=-returns
          (write_json property_bytes codecs.interrupts "interrupts_json" t.interrupts base) _ e
          wrote in
      let (tagged, h1, r1) =
        >>=-returns (write_some codecs.metadata "metadata_json" t.metadata described) _ e r0 in
      let (filled, h2, r2) =
        >>=-returns (write_some codecs.values "values_json" t.values tagged) _ e r1 in
      let same =
        returns-injective (put_some "assistant_id" (map_text t.assistant_id) filled) e r2 in
      subst (λ x. Decodes codecs x without_lock) same
        (entity-Decodes described tagged filled h0 h1 h2
          (subst⁻¹ (λ x. validate_entity property_bytes x ≡ returns tt) same valid))

  -- An entity that `_thread_to_entity` makes of a thread and that `validate_entity` accepts reads
  -- as the thread again, without its lock: metadata, values, interrupts, times, status and assistant
  -- are those of the thread, whatever the size of their JSON. The JSON is taken to be lossless.
  pub entity_to_thread-thread_to_entity :
      (e : Entity)
      → thread_to_entity codecs t ≡ returns e
      → validate_entity property_bytes e ≡ returns tt
      → entity_to_thread codecs e ≡ returns without_lock
  entity_to_thread-thread_to_entity e wrote valid =
      entity_to_thread-Decodes codecs e without_lock (thread_to_entity-Decodes e wrote valid)
