-- ===== src/Tables/Store/Acquire.antt =====
-- `try_acquire_run_lock` of stores/azure_table.py against that of `InMemoryThreadStore`.
use mathlib.Core.Path.{subst}
use azure_functions_langgrap.Base.{
  ℕ, zero, suc, String, true, false, Option, none, some, ◌==◌, string_eq, ◌≡◌, refl, ◌∙◌, ap, sym,
  arith, Outcome, returns, raises, Bool-cases, Outcome-cases, inl, inr, ◌⊎◌,
}
use azure_functions_langgrap.Base.Dict.{lookup, insert}
use azure_functions_langgrap.Platform.Threads.{Thread, busy, status_eq}
use azure_functions_langgrap.Platform.Stores.{Store, StoreError, conflicts, locked}
use azure_functions_langgrap.Platform.Stores.{try_acquire_run_lock as acquire_in_memory}
use azure_functions_langgrap.Tables.{Entity, text, TableError, modified}
use azure_functions_langgrap.Tables.Json.{validate_entity, property_bytes}
use azure_functions_langgrap.Tables.Threads.{Codecs, entity_to_thread}
use azure_functions_langgrap.Tables.Threads.Decodes.{Decodes-entity_to_thread}
use azure_functions_langgrap.Tables.Service.{
  TableClient, View, IsTable, Row, merges, merge, cas_etag,
}
use azure_functions_langgrap.Tables.Service.Etags.{update-Replaced, cas_etag-Carries}
use azure_functions_langgrap.Tables.Requests.{Turn, Result, acquire_patch, or_key_error}
use azure_functions_langgrap.Tables.Store.{
  acquire_attempt, acquire_attempts, acquire_write, try_acquire_run_lock,
}
use azure_functions_langgrap.Tables.Store.Patches.{acquire_patch-Decodes}
use azure_functions_langgrap.Tables.Store.Abstraction.{
  AreMoves, Others, still, moved_before, moved_between, Loses, over, loses, Commits-Replaced,
  Commits-read, Commits, after_write-cases,
}

acquire_in_memory_free :
    {V : Type 0} (now : ℕ) (token id : String) (wanted : Option String) (t : Thread V) (m : Store V)
    → lookup id m ≡ some t
    → conflicts t.assistant_id wanted ≡ false
    → t.status == busy ≡ false
    → acquire_in_memory now token id wanted m
      ≡ (returns (some (locked now token wanted t)), insert id (locked now token wanted t) m)
unfolding acquire_in_memory
acquire_in_memory_free now token id wanted t m there mild free = rw (there, mild, free) refl

acquire_in_memory_held :
    {V : Type 0} (now : ℕ) (token id : String) (wanted : Option String) (t : Thread V) (m : Store V)
    → lookup id m ≡ some t
    → conflicts t.assistant_id wanted ≡ false
    → t.status == busy ≡ true
    → acquire_in_memory now token id wanted m ≡ (returns none, m)
unfolding acquire_in_memory
acquire_in_memory_held now token id wanted t m there mild held = rw (there, mild, held) refl

module _ {V : Type 0} (codecs : Codecs V) (T : TableClient) (w : View T) (table : IsTable T w)
    (turns : ℕ → Turn T.State) (moves : AreMoves T w turns) (id : String)
    (wanted : Option String) where
  abbrev step : ℕ → Store V → Outcome StoreError (Option (Thread V)) × Store V
  step i m = acquire_in_memory (turns i).now (turns i).token id wanted m

  -- A write that went through is one acquisition.
  written-Commits :
      (i : ℕ) (s r s' : T.State) (row : Row) (t : Thread V)
      → Others turns s r
      → T.get_entity r id ≡ returns row
      → entity_to_thread codecs row.entity ≡ returns t
      → conflicts t.assistant_id wanted ≡ false
      → t.status == busy ≡ false
      → T.update_entity
          ((turns i).between r)
          merges
          (acquire_patch id (turns i).now (turns i).token t.assistant_id wanted)
          (cas_etag row)
        ≡ (returns tt, s')
      → Commits codecs T w turns id step
          (returns (some (locked (turns i).now (turns i).token wanted t)))
          s
          s'
  unfolding lookup
  written-Commits i s r s' row t later read decoded mild free sent =
      let now = (turns i).now in
      let token = (turns i).token in
      let patch = acquire_patch id now token t.assistant_id wanted in
      let d = Decodes-entity_to_thread codecs row.entity t decoded in
      let replaced =
        update-Replaced T w table r ((turns i).between r) s' id merges patch row (cas_etag row) read
          (cas_etag-Carries row) (moves i r).1 refl sent in
      Commits-Replaced codecs T w table turns id step (returns (some (locked now token wanted t))) i
        s ((turns i).between r) s' merges patch row.entity t (locked now token wanted t)
        (moved_between i later) replaced d
        (λ stored key.
          acquire_patch-Decodes codecs row.entity replaced.new t d key id now token wanted stored)
        (λ m there. acquire_in_memory_free now token id wanted t m there mild free)

  -- What a call with `n` attempts left has come to, which started in `s` and is in `u` now.
  abbrev pub Ends :
      ℕ → Outcome TableError (Option (Thread V)) → T.State → T.State → T.State → Type 0
  Ends n v s u s' =
      ((found : Option (Thread V)) × (v ≡ returns found)
        × Commits codecs T w turns id step (returns found) s s')
      ⊎ (((v ≡ returns none) × Loses T turns id n u s') ⊎ ((x : TableError) × (v ≡ raises x)))

  -- The attempt lost the race, and the rest of the call has ended.
  Ends-loses :
      (n : ℕ) (v : Outcome TableError (Option (Thread V))) (s u s' : T.State) (patch : Entity)
      (tag : Option String)
      → lookup "RowKey" patch ≡ some (text id)
      → T.update_entity ((turns n).between ((turns n).before u)) merges patch tag
        ≡ (raises modified, (turns n).between ((turns n).before u))
      → Ends n v s ((turns n).between ((turns n).before u)) s'
      → Ends (suc n) v s u s'
  Ends-loses n v s u s' patch tag keyed refused (inl committed) = inl committed
  Ends-loses n v s u s' patch tag keyed refused (inr (inl (missed, lost))) =
      inr (inl (missed, loses merges patch tag keyed refused lost))
  Ends-loses n v s u s' patch tag keyed refused (inr (inr failed)) = inr (inr failed)

  -- What the rest of the call, after an attempt that lost the race in `x`, comes to.
  abbrev Again :
      ℕ
      → (T.State → Result T (Option (Thread V)))
      → T.State
      → Outcome TableError (Option (Thread V))
      → T.State
      → Type 0
  Again i retry s v s' = (x : T.State) → Others turns s x → retry x ≡ (v, s') → Ends i v s x s'

  acquire_write-Ends :
      (i : ℕ) (retry : T.State → Result T (Option (Thread V))) (s u : T.State)
      (v : Outcome TableError (Option (Thread V))) (s' : T.State)
      → Again i retry s v s'
      → Others turns s ((turns i).before u)
      → (row : Row) (t : Thread V) → T.get_entity ((turns i).before u) id ≡ returns row
      → entity_to_thread codecs row.entity ≡ returns t
      → conflicts t.assistant_id wanted ≡ false
      → t.status == busy ≡ false
      → acquire_write codecs T id wanted (turns i) retry row t ((turns i).before u) ≡ (v, s')
      → Ends (suc i) v s u s'
  unfolding acquire_write lookup
  acquire_write-Ends i retry s u v s' again later row t read decoded mild free h =
      let r = (turns i).before u in
      let sent_to = (turns i).between r in
      let patch = acquire_patch id (turns i).now (turns i).token t.assistant_id wanted in
      elim (Outcome-cases (validate_entity property_bytes (merge row.entity patch))) [
        | inr (x, failed) ↦ inr (inr (x, sym (ap (λ p. p.0) (rw (acquire_write, failed) at h))))
        | inl (fits, valid) ↦
            elim (after_write-cases T id
              (returns (some (locked (turns i).now (turns i).token wanted t))) retry
              (T.update_entity sent_to merges patch (cas_etag row)) v s'
              (rw (acquire_write, valid) at h)) [
                | inl (sent, same) ↦
                    inl (_, same, written-Commits i s r s' row t later read decoded mild free sent)
                | inr (inl (x, lost, more)) ↦
                    let same = table.lost sent_to x merges patch (cas_etag row) lost in
                    Ends-loses i v s u s' patch (cas_etag row) refl
                      (lost ∙ ap (λ (y : T.State). (raises modified, y)) same)
                      (again sent_to (moved_between i later) (ap retry (sym same) ∙ more))
                | inr (inr (x, failed, same)) ↦ inr (inr (or_key_error id x, same))
              ]
      ]

  acquire_attempt-Ends :
      (i : ℕ) (retry : T.State → Result T (Option (Thread V))) (s u : T.State)
      (v : Outcome TableError (Option (Thread V))) (s' : T.State)
      → Again i retry s v s'
      → Others turns s ((turns i).before u)
      → acquire_attempt codecs T id wanted (turns i) retry ((turns i).before u) ≡ (v, s')
      → Ends (suc i) v s u s'
  unfolding acquire_attempt acquire_write
  acquire_attempt-Ends i retry s u v s' again later h =
      let r = (turns i).before u in
      elim (Outcome-cases (T.get_entity r id)) [
        | inr (x, failed) ↦ inr (inr (or_key_error id x, ground (arith, failed, h)))
        | inl (row, read) ↦ elim (Outcome-cases (entity_to_thread codecs row.entity)) [
          | inr (x, failed) ↦ inr (inr (x, ground (arith, read, failed, h)))
          | inl (t, decoded) ↦ elim (Bool-cases (conflicts t.assistant_id wanted)) [
            | inl bound ↦
                inr (inr (_, sym (ap (λ p. p.0) (rw (acquire_attempt, read, decoded, bound) at h))))
            | inr mild ↦ elim (Bool-cases (t.status == busy)) [
              | inl held ↦
                  let stopped = rw (acquire_attempt, read, decoded, mild, held) at h in
                  inl (
                    none,
                    sym (ap (λ p. p.0) stopped),
                    Commits-read codecs T w table turns id step (returns none) i s r s' row t later
                        (ap (λ p. p.1) stopped) read decoded
                        (λ m there.
                          acquire_in_memory_held (turns i).now (turns i).token id wanted t m there
                            mild held),
                  )
              | inr free ↦
                  acquire_write-Ends i retry s u v s' again later row t read decoded mild free
                    (rw (acquire_attempt, read, decoded, mild, free) at h)
            ]
          ]
        ]
      ]

  acquire_attempts-Ends :
      (n : ℕ) (s u : T.State) (v : Outcome TableError (Option (Thread V))) (s' : T.State)
      → Others turns s u
      → acquire_attempts codecs T n turns id wanted u ≡ (v, s')
      → Ends n v s u s'
  unfolding acquire_attempts
  acquire_attempts-Ends zero s u v s' later h =
      inr (inl (sym (ap (λ p. p.0) h), subst (λ x. Loses T turns id 0 u x) (ap (λ p. p.1) h) over))
  acquire_attempts-Ends (suc n) s u v s' later h =
      acquire_attempt-Ends n (acquire_attempts codecs T n turns id wanted) s u v s'
        (λ x after ended. acquire_attempts-Ends n s x v s' after ended) (moved_before n later) h

  -- Whatever other callers do between its requests, a call of `try_acquire_run_lock` comes to one
  -- of three ends. It returns what the in-memory store returns at one moment after its start, with
  -- the clock and the token of one of its attempts, and at that moment makes the change of the
  -- in-memory store: a free thread is locked, a busy one is left, all other threads are left. Or
  -- it returns `None` after the service refused the writes of all three attempts, with nothing
  -- done to the table but by the other callers. Or it raises.
  pub try_acquire_run_lock-Ends :
      (s s' : T.State) (v : Outcome TableError (Option (Thread V)))
      → try_acquire_run_lock codecs T turns id wanted s ≡ (v, s')
      → Ends 3 v s s s'
  unfolding try_acquire_run_lock
  try_acquire_run_lock-Ends s s' v h = acquire_attempts-Ends 3 s s v s' still h
