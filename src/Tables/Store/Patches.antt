-- ===== src/Tables/Store/Patches.antt =====
-- The patches of stores/azure_table.py: how a row reads after try_acquire_run_lock, renew_run_lock
-- or reset_stale_locks merged its patch into it.
use azure_functions_langgrap.Base.{
  ℕ, ◌+◌, String, true, false, Option, none, some, [], string_eq, ◌≡◌, refl, ◌∙◌, ap, returns,
}
use azure_functions_langgrap.Base.Dict.{lookup, Unique}
use azure_functions_langgrap.Base.Text.Slices.{◌+++◌}
use azure_functions_langgrap.Platform.Threads.{Thread, ThreadStatus, idle, busy, interrupted, error}
use azure_functions_langgrap.Platform.Stores.{locked, renewed, some_or}
use azure_functions_langgrap.Tables.{Property, text, time, Entity}
use azure_functions_langgrap.Tables.Json.{Codec, read_json}
use azure_functions_langgrap.Tables.Json.Agree.{read_json-Agree}
use azure_functions_langgrap.Tables.Threads.{Codecs, read_status, read_text, read_time, status_text}
use azure_functions_langgrap.Tables.Threads.Decodes.{Decodes}
use azure_functions_langgrap.Tables.Service.{merge, is_reserved}
use azure_functions_langgrap.Tables.Service.Merge.{
  lookup-merge, lookup-merge_field, avoids, IsFree, is_reserved-field,
}
use azure_functions_langgrap.Tables.Requests.{acquire_patch, renew_patch, reset_patch}

-- What the service stores for the entity.
abbrev pub Stores : Entity → Entity → Type 0
Stores new e = (name : String) → is_reserved name ≡ false → lookup name new ≡ lookup name e

-- A patch that writes none of the JSON fields and no creation time.
abbrev pub IsPatch : Entity → Type 0
IsPatch patch =
    Unique patch
    × (avoids "metadata_json" patch ≡ true)
    × (avoids "values_json" patch ≡ true)
    × (avoids "interrupts_json" patch ≡ true)
    × (lookup "created_at" patch ≡ none)

acquire_patch-IsPatch :
    (id : String) (now : ℕ) (token : String) (assistant wanted : Option String)
    → IsPatch (acquire_patch id now token assistant wanted)
unfolding lookup
acquire_patch-IsPatch id now token none none =
    ((refl, (refl, (refl, (refl, (refl, (refl, tt)))))), refl, refl, refl, refl)
acquire_patch-IsPatch id now token none (some a) =
    ((refl, (refl, (refl, (refl, (refl, (refl, (refl, tt))))))), refl, refl, refl, refl)
acquire_patch-IsPatch id now token (some b) wanted =
    ((refl, (refl, (refl, (refl, (refl, (refl, tt)))))), refl, refl, refl, refl)

renew_patch-IsPatch : (id : String) (now : ℕ) → IsPatch (renew_patch id now)
unfolding lookup
renew_patch-IsPatch id now = ((refl, (refl, (refl, (refl, tt)))), refl, refl, refl, refl)

reset_patch-IsPatch :
    (id : String) (now : ℕ) (status : ThreadStatus) → IsPatch (reset_patch id now status)
unfolding lookup
reset_patch-IsPatch id now status = ((refl, (refl, (refl, (refl, tt)))), refl, refl, refl, refl)

-- Every status that is written is read back.
pub read_status-status_text :
    (s : ThreadStatus) → read_status (some (text (status_text s))) ≡ returns s
unfolding read_status
read_status-status_text idle = refl
read_status-status_text busy = refl
read_status-status_text interrupted = refl
read_status-status_text error = refl

-- The JSON fields have no name in common with those that the service keeps.
pub json_IsFree : IsFree "metadata_json" × IsFree "values_json" × IsFree "interrupts_json"
json_IsFree = (((refl, refl), refl, refl), ((refl, refl), refl, refl), ((refl, refl), refl, refl))

module _ (e new patch : Entity) (p : IsPatch patch) (stored : Stores new (merge e patch)) where
  patched :
      (name : String)
      → is_reserved name ≡ false
      → lookup name new ≡ some_or (lookup name patch) (lookup name e)
  patched name own = stored name own ∙ lookup-merge name e patch p.0

  patched_json :
      {A : Type 0} (codec : Codec A) (field : String) (default : A)
      → IsFree field
      → avoids field patch ≡ true
      → read_json codec field default new ≡ read_json codec field default e
  patched_json codec field default free h = read_json-Agree codec field default new e (λ x.
      stored (field +++ x) (is_reserved-field field x free)
      ∙ lookup-merge_field field x e patch p.0 h)

  -- What a patch leaves, and what it may change.
  patched-Decodes :
      {V : Type 0} (codecs : Codecs V) (t : Thread V) (updated : ℕ) (expires : Option ℕ)
      (status : ThreadStatus) (assistant token : Option String)
      → Decodes codecs e t
      → lookup "RowKey" new ≡ some (text t.thread_id)
      → lookup "updated_at" patch ≡ some (time updated)
      → read_time (lookup "lock_expires_at" new) ≡ returns expires
      → read_status (lookup "status" new) ≡ returns status
      → read_text (lookup "assistant_id" new) ≡ returns assistant
      → read_text (lookup "lock_token" new) ≡ returns token
      → Decodes codecs new (record t {
        updated_at = updated;
        lock_expires_at = expires;
        status = status;
        assistant_id = assistant;
        lock_token = token;
      })
  patched-Decodes codecs t updated expires status assistant token d key h0 h1 h2 h3 h4 = record {
    metadata = patched_json codecs.metadata "metadata_json" none json_IsFree.0 p.1 ∙ d.metadata;
    values = patched_json codecs.values "values_json" none json_IsFree.1 p.2 ∙ d.values;
    interrupts =
        patched_json codecs.interrupts "interrupts_json" [] json_IsFree.2 p.3 ∙ d.interrupts;
    thread_id = key;
    created_at = patched "created_at" refl ∙ rw p.4 d.created_at;
    updated_at = patched "updated_at" refl ∙ rw h0 refl;
    lock_expires_at = h1;
    status = h2;
    assistant_id = h3;
    lock_token = h4;
  }

acquired_assistant :
    (id : String) (now : ℕ) (token : String) (assistant wanted : Option String)
    (held : Option Property)
    → read_text held ≡ returns assistant
    → read_text (some_or (lookup "assistant_id" (acquire_patch id now token assistant wanted)) held)
      ≡ returns (some_or assistant wanted)
unfolding read_text lookup
acquired_assistant id now token none none held h = h
acquired_assistant id now token none (some a) held h = refl
acquired_assistant id now token (some b) wanted held h = h

module _ {V : Type 0} (codecs : Codecs V) (e new : Entity) (t : Thread V) (d : Decodes codecs e t)
    (key : lookup "RowKey" new ≡ some (text t.thread_id)) where
  -- After `try_acquire_run_lock` the row reads as the locked thread.
  pub acquire_patch-Decodes :
      (id : String) (now : ℕ) (token : String) (wanted : Option String)
      → Stores new (merge e (acquire_patch id now token t.assistant_id wanted))
      → Decodes codecs new (locked now token wanted t)
  unfolding read_status read_text read_time lookup
  acquire_patch-Decodes id now token wanted stored =
      let patch = acquire_patch id now token t.assistant_id wanted in
      let p = acquire_patch-IsPatch id now token t.assistant_id wanted in
      let at = patched e new patch p stored in
      patched-Decodes e new patch p stored codecs t now (some (now + 60)) busy
        (some_or t.assistant_id wanted) (some token) d key refl
        (ap read_time (at "lock_expires_at" refl))
        (ap read_status (at "status" refl) ∙ read_status-status_text busy)
        (ap read_text (at "assistant_id" refl)
          ∙ acquired_assistant id now token t.assistant_id wanted (lookup "assistant_id" e)
              d.assistant_id)
        (ap read_text (at "lock_token" refl))

  pub renew_patch-Decodes :
      (id : String) (now : ℕ)
      → Stores new (merge e (renew_patch id now))
      → Decodes codecs new (renewed now t)
  unfolding read_time lookup
  renew_patch-Decodes id now stored =
      let p = renew_patch-IsPatch id now in
      let at = patched e new (renew_patch id now) p stored in
      patched-Decodes e new (renew_patch id now) p stored codecs t now (some (now + 60)) t.status
        t.assistant_id t.lock_token d key refl (ap read_time (at "lock_expires_at" refl))
        (ap read_status (at "status" refl) ∙ d.status)
        (ap read_text (at "assistant_id" refl) ∙ d.assistant_id)
        (ap read_text (at "lock_token" refl) ∙ d.lock_token)

  -- After `reset_stale_locks` it reads with the new status, and with the lock as it was.
  pub reset_patch-Decodes :
      (id : String) (now : ℕ) (status : ThreadStatus)
      → Stores new (merge e (reset_patch id now status))
      → Decodes codecs new (record t { status = status; updated_at = now })
  unfolding lookup
  reset_patch-Decodes id now status stored =
      let p = reset_patch-IsPatch id now status in
      let at = patched e new (reset_patch id now status) p stored in
      patched-Decodes e new (reset_patch id now status) p stored codecs t now t.lock_expires_at
        status t.assistant_id t.lock_token d key refl
        (ap read_time (at "lock_expires_at" refl) ∙ d.lock_expires_at)
        (ap read_status (at "status" refl) ∙ read_status-status_text status)
        (ap read_text (at "assistant_id" refl) ∙ d.assistant_id)
        (ap read_text (at "lock_token" refl) ∙ d.lock_token)
