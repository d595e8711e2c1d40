-- ===== src/Tables/Store/Progress.antt =====
-- Calls of stores/azure_table.py that no other caller disturbs, on a service that answers.
use azure_functions_langgrap.Base.{
  ℕ, String, false, Option, some, ◌==◌, string_eq, ◌≡◌, refl, ◌∙◌, ap, sym, returns,
}
use azure_functions_langgrap.Base.Dict.{lookup}
use azure_functions_langgrap.Platform.Threads.{Thread, busy, status_eq}
use azure_functions_langgrap.Platform.Stores.{conflicts, locked}
use azure_functions_langgrap.Tables.{Entity, text}
use azure_functions_langgrap.Tables.Json.{validate_entity, property_bytes}
use azure_functions_langgrap.Tables.Threads.{Codecs, entity_to_thread}
use azure_functions_langgrap.Tables.Service.{
  TableClient, View, IsTable, Row, Mode, merges, merge, cas_etag,
}
use azure_functions_langgrap.Tables.Service.Etags.{
  some-injective, update-Replaced, cas_etag-Carries,
}
use azure_functions_langgrap.Tables.Threads.Decodes.{
  Decodes-entity_to_thread, entity_to_thread-Decodes,
}
use azure_functions_langgrap.Tables.Store.Abstraction.{row_key}
use azure_functions_langgrap.Tables.Store.Patches.{acquire_patch-Decodes}
use azure_functions_langgrap.Tables.Requests.{Turn, acquire_patch, after_write}
use azure_functions_langgrap.Tables.Store.{
  acquire_attempt, acquire_attempts, acquire_write, try_acquire_run_lock,
}

-- The service answers a read of a row that is there, with its ETag, and carries out a write on the
-- current version.
pub record IsAvailable (T : TableClient) (w : View T) : Type 0 where
  pub reads :
      (s : T.State) (k : String) (e : Entity)
      → w.find s k ≡ some e
      → (row : Row) × (T.get_entity s k ≡ returns row) × (cas_etag row ≡ w.version s k)
  pub writes :
      (s : T.State) (k : String) (e : Entity) (mode : Mode) (patch : Entity)
      → w.find s k ≡ some e
      → lookup "RowKey" patch ≡ some (text k)
      → (s' : T.State) × (T.update_entity s mode patch (w.version s k) ≡ (returns tt, s'))

module _ {V : Type 0} (codecs : Codecs V) (T : TableClient) (w : View T) (table : IsTable T w)
    (available : IsAvailable T w) (turns : ℕ → Turn T.State) (s : T.State)
    (quiet : ((turns 2).before s ≡ s) × ((turns 2).between s ≡ s)) where
  -- On a service that answers, a call of `try_acquire_run_lock` that nobody disturbs gets the lock
  -- at its first attempt, with that attempt's token, if the thread is free, is not bound to another
  -- assistant, and is within the limits of the table with the lock's properties: it returns the
  -- locked thread, the row of the thread reads as that from then on, and no other row has changed.
  pub try_acquire_run_lock-Acquires :
      (id : String) (wanted : Option String) (e : Entity) (t : Thread V)
      → w.find s id ≡ some e
      → entity_to_thread codecs e ≡ returns t
      → conflicts t.assistant_id wanted ≡ false
      → t.status == busy ≡ false
      → validate_entity property_bytes
          (merge e (acquire_patch id (turns 2).now (turns 2).token t.assistant_id wanted))
        ≡ returns tt
      → (s' : T.State) × (try_acquire_run_lock codecs T turns id wanted s
          ≡ (returns (some (locked (turns 2).now (turns 2).token wanted t)), s'))
        × (e' : Entity) × (w.find s' id ≡ some e')
        × (entity_to_thread codecs e' ≡ returns (locked (turns 2).now (turns 2).token wanted t))
        × ((j : String) → id == j ≡ false → w.find s' j ≡ w.find s j)
  unfolding try_acquire_run_lock acquire_attempts acquire_attempt acquire_write after_write lookup
  try_acquire_run_lock-Acquires id wanted e t found decoded mild free fits =
      let patch = acquire_patch id (turns 2).now (turns 2).token t.assistant_id wanted in
      let (row, read, tag) = available.reads s id e found in
      let (s', sent) = available.writes s id e merges patch found refl in
      let here = ap (λ (tag : Option String). T.update_entity s merges patch tag) tag ∙ sent in
      let same = some-injective row.entity e (sym (table.found-get_entity s id row read) ∙ found) in
      let (e', there, reads, rest) =
        acquired s' row read (ap (entity_to_thread codecs) same ∙ decoded) here in
      (
        s',
        rw
            (
              quiet.0,
              acquire_attempt,
              read,
              ap (entity_to_thread codecs) same ∙ decoded,
              mild,
              free,
              acquire_write,
              ap (λ (x : Entity). validate_entity property_bytes (merge x patch)) same ∙ fits,
              ap (turns 2).between quiet.0 ∙ quiet.1,
              tag,
              sent,
            )
            refl,
        e',
        there,
        reads,
        rest,
      )
    where
      token : String
      token = (turns 2).token

      -- What the write left.
      acquired :
          (s' : T.State) (row : Row)
          → T.get_entity s id ≡ returns row
          → entity_to_thread codecs row.entity ≡ returns t
          → T.update_entity s merges
              (acquire_patch id (turns 2).now token t.assistant_id wanted)
              (cas_etag row)
            ≡ (returns tt, s')
          → (e' : Entity) × (w.find s' id ≡ some e')
            × (entity_to_thread codecs e' ≡ returns (locked (turns 2).now token wanted t))
            × ((j : String) → id == j ≡ false → w.find s' j ≡ w.find s j)
      acquired s' row read decoded sent =
          let now = (turns 2).now in
          let d = Decodes-entity_to_thread codecs row.entity t decoded in
          let r =
            update-Replaced T w table s s s' id merges
              (acquire_patch id now token t.assistant_id wanted) row (cas_etag row) read
              (cas_etag-Carries row) (table.stays s) refl sent in
          let key =
            table.keyed s' id r.new r.stored
            ∙ ap (λ (i : String). some (text i))
                (row_key codecs T w table s id row.entity t r.found d) in
          (
            r.new,
            r.stored,
            entity_to_thread-Decodes codecs r.new (locked now token wanted t) (
                acquire_patch-Decodes codecs row.entity r.new t d key id now token wanted
                  r.content),
            r.others,
          )
