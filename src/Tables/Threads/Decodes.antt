-- ===== src/Tables/Threads/Decodes.antt =====
-- What an entity that reads as a thread holds: the inversion of `_entity_to_thread`.
use mathlib.Core.Path.{subst}
use azure_functions_langgrap.Base.{
  ℕ, String, string_eq, none, some, [], ◌≡◌, refl, arith, returns, ◌>>=◌, >>=-returns,
  returns-injective,
}
use azure_functions_langgrap.Base.Dict.{lookup}
use azure_functions_langgrap.Platform.Threads.{Thread}
use azure_functions_langgrap.Tables.{text, time, Entity}
use azure_functions_langgrap.Tables.Json.{read_json, property_at}
use azure_functions_langgrap.Tables.Threads.{
  Codecs, entity_to_thread, read_status, read_text, read_time, as_time, as_key,
}

-- The entity reads as the thread, field by field.
pub record Decodes {V : Type 0} (codecs : Codecs V) (e : Entity) (t : Thread V) : Type 0 where
  pub metadata : read_json codecs.metadata "metadata_json" none e ≡ returns t.metadata
  pub values : read_json codecs.values "values_json" none e ≡ returns t.values
  pub interrupts : read_json codecs.interrupts "interrupts_json" [] e ≡ returns t.interrupts
  pub thread_id : lookup "RowKey" e ≡ some (text t.thread_id)
  pub created_at : lookup "created_at" e ≡ some (time t.created_at)
  pub updated_at : lookup "updated_at" e ≡ some (time t.updated_at)
  pub lock_expires_at : read_time (lookup "lock_expires_at" e) ≡ returns t.lock_expires_at
  pub status : read_status (lookup "status" e) ≡ returns t.status
  pub assistant_id : read_text (lookup "assistant_id" e) ≡ returns t.assistant_id
  pub lock_token : read_text (lookup "lock_token" e) ≡ returns t.lock_token

at_key :
    (name id : String) (e : Entity)
    → property_at name e >>= as_key ≡ returns id
    → lookup name e ≡ some (text id)
unfolding as_key
at_key name id e h = ground arith

at_time :
    (name : String) (t : ℕ) (e : Entity)
    → property_at name e >>= as_time ≡ returns t
    → lookup name e ≡ some (time t)
unfolding as_time
at_time name t e h = ground arith

key_at :
    (name id : String) (e : Entity)
    → lookup name e ≡ some (text id)
    → property_at name e >>= as_key ≡ returns id
unfolding as_key
key_at name id e h = ground (arith, h)

time_at :
    (name : String) (t : ℕ) (e : Entity)
    → lookup name e ≡ some (time t)
    → property_at name e >>= as_time ≡ returns t
unfolding as_time
time_at name t e h = ground (arith, h)

module _ {V : Type 0} (codecs : Codecs V) where
  pub entity_to_thread-Decodes :
      (e : Entity) (t : Thread V) → Decodes codecs e t → entity_to_thread codecs e ≡ returns t
  unfolding entity_to_thread
  entity_to_thread-Decodes e t d =
      rw
        (
          d.metadata,
          d.values,
          d.interrupts,
          key_at "RowKey" t.thread_id e d.thread_id,
          time_at "created_at" t.created_at e d.created_at,
          time_at "updated_at" t.updated_at e d.updated_at,
          d.lock_expires_at,
          d.status,
          d.assistant_id,
          d.lock_token,
        )
        refl

  pub Decodes-entity_to_thread :
      (e : Entity) (t : Thread V) → entity_to_thread codecs e ≡ returns t → Decodes codecs e t
  unfolding entity_to_thread
  Decodes-entity_to_thread e t read =
      let (metadata, h0, r0) =
        >>=-returns (read_json codecs.metadata "metadata_json" none e) _ t read in
      let (values, h1, r1) = >>=-returns (read_json codecs.values "values_json" none e) _ t r0 in
      let (interrupts, h2, r2) =
        >>=-returns (read_json codecs.interrupts "interrupts_json" [] e) _ t r1 in
      let (id, h3, r3) = >>=-returns (property_at "RowKey" e >>= as_key) _ t r2 in
      let (created_at, h4, r4) = >>=-returns (property_at "created_at" e >>= as_time) _ t r3 in
      let (updated_at, h5, r5) = >>=-returns (property_at "updated_at" e >>= as_time) _ t r4 in
      let (expires_at, h6, r6) = >>=-returns (read_time (lookup "lock_expires_at" e)) _ t r5 in
      let (status, h7, r7) = >>=-returns (read_status (lookup "status" e)) _ t r6 in
      let (assistant_id, h8, r8) = >>=-returns (read_text (lookup "assistant_id" e)) _ t r7 in
      let (token, h9, r9) = >>=-returns (read_text (lookup "lock_token" e)) _ t r8 in
      subst (Decodes codecs e) (returns-injective _ t r9) (record {
        metadata = h0;
        values = h1;
        interrupts = h2;
        thread_id = at_key "RowKey" id e h3;
        created_at = at_time "created_at" created_at e h4;
        updated_at = at_time "updated_at" updated_at e h5;
        lock_expires_at = h6;
        status = h7;
        assistant_id = h8;
        lock_token = h9;
      })
