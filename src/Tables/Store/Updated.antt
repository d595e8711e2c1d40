-- ===== src/Tables/Store/Updated.antt =====
-- The entity that `update` of stores/azure_table.py puts in the place of the one that it read: how
-- it reads as a thread.
use mathlib.Core.Path.{subst⁻¹}
use azure_functions_langgrap.Base.{
  ℕ, String, true, false, not, Option, none, some, or_else, [], ◌==◌, string_eq, ◌≡◌, refl, ◌∙◌, ap,
  sym, returns, filter, >>=-returns, returns-injective, if◌then◌else◌,
}
use azure_functions_langgrap.Base.Dict.{lookup, insert, lookup-insert, lookup-filter_key}
use azure_functions_langgrap.Base.Text.Slices.{diverge, append_nil}
use azure_functions_langgrap.Platform.Threads.{Thread, ThreadStatus}
use azure_functions_langgrap.Platform.Stores.{some_or, updated, Changes}
use azure_functions_langgrap.Tables.{Property, text, time, Entity, is_system}
use azure_functions_langgrap.Tables.Json.{validate_entity, property_bytes}
use azure_functions_langgrap.Tables.Json.Names.{IsField, is_system-field}
use azure_functions_langgrap.Tables.Json.Agree.{Agree, read_json-Agree}
use azure_functions_langgrap.Tables.Threads.{
  Codecs, read_status, read_text, read_time, put_some, write_some, write_given, map_text,
  map_status,
}
use azure_functions_langgrap.Tables.Threads.Decodes.{Decodes}
use azure_functions_langgrap.Tables.Service.{is_reserved}
use azure_functions_langgrap.Tables.Requests.{update_replacement}
use azure_functions_langgrap.Tables.Store.Patches.{Stores, json_IsFree, read_status-status_text}
use azure_functions_langgrap.Tables.Store.Writes.{
  AreLossless, stored_json, lookup-put_some, insert-Agree, put_some-Agree, filter-Agree,
  write_given-Agree, write_given-read, write_some-Agree, write_some-read,
}

updated_status :
    (given : Option ThreadStatus) (held : Option Property) (old : ThreadStatus)
    → read_status held ≡ returns old
    → read_status (some_or (map_status given) held) ≡ returns (or_else given old)
updated_status none held old h = h
updated_status (some s) held old h = read_status-status_text s

updated_assistant :
    (given : Option String) (held : Option Property) (old : Option String)
    → read_text held ≡ returns old
    → read_text (some_or (map_text given) held) ≡ returns (some_or given old)
unfolding read_text
updated_assistant none held old h = h
updated_assistant (some a) held old h = refl

module _ {V : Type 0} (codecs : Codecs V) (lossless : AreLossless codecs) (e : Entity)
    (t : Thread V) (d : Decodes codecs e t) (now : ℕ) where
  abbrev updated_base : Entity
  updated_base = insert "updated_at" (time now) (filter (λ entry. not (is_system entry.0)) e)

  updated_base-Agree :
      (field : String)
      → IsField field
      → diverge field "updated_at" ≡ true
      → Agree field updated_base e
  updated_base-Agree field own apart x =
      insert-Agree field "updated_at" (time now) (filter (λ entry. not (is_system entry.0)) e) apart
        x
      ∙ filter-Agree field (λ name. not (is_system name)) e
          (λ y. ap not (is_system-field field y own)) x

  module _ (c : Changes V) (tagged filled described : Entity)
      (h0 : write_some codecs.metadata "metadata_json" c.metadata updated_base ≡ returns tagged)
      (h1 : write_some codecs.values "values_json" c.values tagged ≡ returns filled)
      (h2 : write_given codecs.interrupts "interrupts_json" c.interrupts filled
        ≡ returns described) where
    abbrev replacement : Entity
    replacement =
        put_some "assistant_id" (map_text c.assistant_id)
          (put_some "status" (map_status c.status) described)

    replacement-Agree :
        (field : String)
        → diverge field "assistant_id" ≡ true
        → diverge field "status" ≡ true
        → Agree field replacement described
    replacement-Agree field assistant state x =
        put_some-Agree field "assistant_id" (map_text c.assistant_id) _ assistant x
        ∙ put_some-Agree field "status" (map_status c.status) described state x

    -- A name outside the JSON fields is as it was in the entity that was read.
    described_at :
        (name : String)
        → diverge name "metadata_json" ≡ true
        → diverge name "values_json" ≡ true
        → diverge name "interrupts_json" ≡ true
        → lookup name described ≡ (
            if "updated_at" == name
            then some (time now)
            else if not (is_system name)
            then lookup name e
            else none)
    described_at name a b i =
        ap (λ (n : String). lookup n described) (sym (append_nil name))
        ∙ write_given-Agree codecs.interrupts "interrupts_json" filled described c.interrupts name
            h2 i ""
        ∙ write_some-Agree codecs.values "values_json" tagged filled c.values name h1 b ""
        ∙ write_some-Agree codecs.metadata "metadata_json" updated_base tagged c.metadata name h0 a
            ""
        ∙ ap (λ (n : String). lookup n updated_base) (append_nil name)
        ∙ rw (lookup-insert, lookup-filter_key (λ n. not (is_system n)) name e) refl

    -- The entity of an updated thread, as the table holds it after the replacement.
    replacement-Decodes :
        (new : Entity)
        → validate_entity property_bytes replacement ≡ returns tt
        → Stores new replacement
        → lookup "RowKey" new ≡ some (text t.thread_id)
        → Decodes codecs new (updated now c t)
    unfolding read_time read_text
    replacement-Decodes new valid stored key = record {
      metadata =
          stored_json codecs.metadata "metadata_json" none new replacement json_IsFree.0 stored
          ∙ write_some-read codecs.metadata "metadata_json" updated_base tagged c.metadata none
              t.metadata replacement lossless.metadata (refl, refl) h0
              (λ x.
                replacement-Agree "metadata_json" refl refl x
                ∙ write_given-Agree codecs.interrupts "interrupts_json" filled described
                    c.interrupts "metadata_json" h2 refl x
                ∙ write_some-Agree codecs.values "values_json" tagged filled c.values
                    "metadata_json" h1 refl x)
              valid
              (read_json-Agree codecs.metadata "metadata_json" none updated_base e
                  (updated_base-Agree "metadata_json" (refl, refl) refl)
                ∙ d.metadata);
      values =
          stored_json codecs.values "values_json" none new replacement json_IsFree.1 stored
          ∙ write_some-read codecs.values "values_json" tagged filled c.values none t.values
              replacement lossless.values (refl, refl) h1
              (λ x.
                replacement-Agree "values_json" refl refl x
                ∙ write_given-Agree codecs.interrupts "interrupts_json" filled described
                    c.interrupts "values_json" h2 refl x)
              valid
              (read_json-Agree codecs.values "values_json" none tagged e (λ x.
                  write_some-Agree codecs.metadata "metadata_json" updated_base tagged c.metadata
                    "values_json" h0 refl x
                  ∙ updated_base-Agree "values_json" (refl, refl) refl x)
                ∙ d.values);
      interrupts =
          stored_json codecs.interrupts "interrupts_json" [] new replacement json_IsFree.2 stored
          ∙ write_given-read codecs.interrupts "interrupts_json" filled described c.interrupts []
              t.interrupts replacement lossless.interrupts (refl, refl) h2
              (replacement-Agree "interrupts_json" refl refl) valid
              (read_json-Agree codecs.interrupts "interrupts_json" [] filled e (λ x.
                  write_some-Agree codecs.values "values_json" tagged filled c.values
                    "interrupts_json" h1 refl x
                  ∙ write_some-Agree codecs.metadata "metadata_json" updated_base tagged c.metadata
                      "interrupts_json" h0 refl x
                  ∙ updated_base-Agree "interrupts_json" (refl, refl) refl x)
                ∙ d.interrupts);
      thread_id = key;
      created_at = at "created_at" refl ∙ described_at "created_at" refl refl refl ∙ d.created_at;
      updated_at = at "updated_at" refl ∙ described_at "updated_at" refl refl refl;
      lock_expires_at =
          ap read_time (at "lock_expires_at" refl ∙ described_at "lock_expires_at" refl refl refl)
          ∙ d.lock_expires_at;
      status =
          ap read_status (at "status" refl)
          ∙ updated_status c.status (lookup "status" described) t.status
              (ap read_status (described_at "status" refl refl refl) ∙ d.status);
      assistant_id =
          ap read_text (at "assistant_id" refl)
          ∙ updated_assistant c.assistant_id (lookup "assistant_id" described) t.assistant_id
              (ap read_text (described_at "assistant_id" refl refl refl) ∙ d.assistant_id);
      lock_token =
          ap read_text (at "lock_token" refl ∙ described_at "lock_token" refl refl refl)
          ∙ d.lock_token;
    }
      where
        at :
            (name : String)
            → is_reserved name ≡ false
            → lookup name new ≡ (
                if "assistant_id" == name
                then some_or (map_text c.assistant_id) (
                    if "status" == name
                    then some_or (map_status c.status) (lookup name described)
                    else lookup name described)
                else if "status" == name
                then some_or (map_status c.status) (lookup name described)
                else lookup name described)
        at name own = stored name own ∙ rw (lookup-put_some, lookup-put_some) refl

  pub update_replacement-Decodes :
      (c : Changes V) (r new : Entity)
      → update_replacement codecs now c e ≡ returns r
      → validate_entity property_bytes r ≡ returns tt
      → Stores new r
      → lookup "RowKey" new ≡ some (text t.thread_id)
      → Decodes codecs new (updated now c t)
  unfolding update_replacement
  update_replacement-Decodes c r new wrote valid stored key =
      let (tagged, h0, r0) =
        >>=-returns (write_some codecs.metadata "metadata_json" c.metadata updated_base) _ r
          wrote in
      let (filled, h1, r1) =
        >>=-returns (write_some codecs.values "values_json" c.values tagged) _ r r0 in
      let (described, h2, r2) =
        >>=-returns (write_given codecs.interrupts "interrupts_json" c.interrupts filled) _ r r1 in
      let same = returns-injective (replacement c tagged filled described h0 h1 h2) r r2 in
      replacement-Decodes c tagged filled described h0 h1 h2 new
        (subst⁻¹ (λ x. validate_entity property_bytes x ≡ returns tt) same valid)
        (subst⁻¹ (λ x. Stores new x) same stored) key

  pub update_replacement-row_key :
      (c : Changes V) (r : Entity)
      → update_replacement codecs now c e ≡ returns r
      → lookup "RowKey" r ≡ lookup "RowKey" e
  unfolding update_replacement
  update_replacement-row_key c r wrote =
      let (tagged, h0, r0) =
        >>=-returns (write_some codecs.metadata "metadata_json" c.metadata updated_base) _ r
          wrote in
      let (filled, h1, r1) =
        >>=-returns (write_some codecs.values "values_json" c.values tagged) _ r r0 in
      let (described, h2, r2) =
        >>=-returns (write_given codecs.interrupts "interrupts_json" c.interrupts filled) _ r r1 in
      ap (λ (x : Entity). lookup "RowKey" x)
        (sym (returns-injective (replacement c tagged filled described h0 h1 h2) r r2))
      ∙ replacement-Agree c tagged filled described h0 h1 h2 "RowKey" refl refl ""
      ∙ described_at c tagged filled described h0 h1 h2 "RowKey" refl refl refl
