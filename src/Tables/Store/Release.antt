-- ===== src/Tables/Store/Release.antt =====
-- `release_run_lock` of stores/azure_table.py against that of `InMemoryThreadStore`.
use azure_functions_langgrap.Base.{
  ℕ, zero, suc, String, true, false, Option, none, some, ◌==◌, string_eq, ◌≡◌, refl, ◌∙◌, ap, sym,
  arith, Outcome, returns, Bool-cases, Outcome-cases, returns-injective, inl, inr,
}
use azure_functions_langgrap.Base.Dict.{Dict, lookup, insert}
use azure_functions_langgrap.Platform.Threads.{Thread, ThreadStatus, busy, status_eq}
use azure_functions_langgrap.Platform.Stores.{Store, StoreError, is_stale, unlocked}
use azure_functions_langgrap.Platform.Stores.{release_run_lock as release_in_memory}
use azure_functions_langgrap.Tables.{
  Property, text, binary, boolean, integer, decimal, time, nothing, other,
}
use azure_functions_langgrap.Tables.Threads.{Codecs, read_text}
use azure_functions_langgrap.Tables.Threads.Decodes.{Decodes-entity_to_thread}
use azure_functions_langgrap.Tables.Service.{TableClient, View, IsTable, cas_etag}
use azure_functions_langgrap.Tables.Service.Etags.{cas_etag-Carries}
use azure_functions_langgrap.Tables.Requests.{Turn, Result, is_stranger, release_replacement}
use azure_functions_langgrap.Tables.Store.{release_attempt, release_attempts, release_run_lock}
use azure_functions_langgrap.Tables.Store.Writes.{AreLossless}
use azure_functions_langgrap.Tables.Store.Unlocked.{
  release_replacement-Decodes, release_replacement-row_key,
}
use azure_functions_langgrap.Tables.Store.Abstraction.{
  AreMoves, Others, still, moved_before, AreLegible, Commits, Commits-read,
}
use azure_functions_langgrap.Tables.Store.Replace.{replace_row-Commits}

-- The owner test on the property is that on the thread.
pub is_stranger-is_stale :
    (owner : Option String) (held : Option Property) (token : Option String)
    → read_text held ≡ returns token
    → is_stranger owner held ≡ is_stale owner token
unfolding read_text
is_stranger-is_stale none held token h = refl
is_stranger-is_stale (some owner) none token h = rw (sym (returns-injective none token h)) refl
is_stranger-is_stale (some owner) (some nothing) token h =
    rw (sym (returns-injective none token h)) refl
is_stranger-is_stale (some owner) (some (text t)) token h =
    rw (sym (returns-injective (some t) token h)) refl
is_stranger-is_stale (some owner) (some (binary b)) token h = absurd (ground arith)
is_stranger-is_stale (some owner) (some (boolean b)) token h = absurd (ground arith)
is_stranger-is_stale (some owner) (some (integer n)) token h = absurd (ground arith)
is_stranger-is_stale (some owner) (some (decimal x)) token h = absurd (ground arith)
is_stranger-is_stale (some owner) (some (time n)) token h = absurd (ground arith)
is_stranger-is_stale (some owner) (some (other x)) token h = absurd (ground arith)

module _ {V : Type 0} (now : ℕ) (id : String) (status : ThreadStatus)
    (values : Option (Dict String V)) (owner : Option String) (t : Thread V) (m : Store V)
    (there : lookup id m ≡ some t) (settled : status == busy ≡ false) where
  pub release_in_memory_owner :
      is_stale owner t.lock_token ≡ false
      → release_in_memory now id status values owner m
        ≡ (returns (unlocked now status values t), insert id (unlocked now status values t) m)
  unfolding release_in_memory
  release_in_memory_owner mine = rw (settled, there, mine) refl

  release_in_memory_stale :
      is_stale owner t.lock_token ≡ true
      → release_in_memory now id status values owner m ≡ (returns t, m)
  unfolding release_in_memory
  release_in_memory_stale stale = rw (settled, there, stale) refl

module _ {V : Type 0} (codecs : Codecs V) (lossless : AreLossless codecs) (T : TableClient)
    (w : View T) (table : IsTable T w) (turns : ℕ → Turn T.State) (moves : AreMoves T w turns)
    (id : String) (status : ThreadStatus) (values : Option (Dict String V))
    (owner : Option String) where
  abbrev step : ℕ → Store V → Outcome StoreError (Thread V) × Store V
  step i m = release_in_memory (turns i).now id status values owner m

  -- What a call that returns has come to.
  abbrev pub Returned : Thread V → T.State → T.State → Type 0
  Returned result s s' = Commits codecs T w turns id step (returns result) s s'

  module _ (s : T.State) (legible : AreLegible codecs T w turns id s)
      (settled : status == busy ≡ false) where
    release_attempt-Commits :
        (i : ℕ) (retry : T.State → Result T (Thread V)) (r s' : T.State) (result : Thread V)
        → ((u : T.State) → Others turns s u → retry u ≡ (returns result, s') → Returned result s s')
        → Others turns s r
        → release_attempt codecs T id status values owner (turns i) retry r ≡ (returns result, s')
        → Returned result s s'
    unfolding release_attempt
    release_attempt-Commits i retry r s' result again later h =
        elim (Outcome-cases (T.get_entity r id)) [
          | inr (x, failed) ↦ absurd (ground (arith, failed, h))
          | inl (row, read) ↦
              elim (Bool-cases (is_stranger owner (lookup "lock_token" row.entity))) [
                | inl stranger ↦
                    let stopped = rw (release_attempt, read, stranger) at h in
                    let decoded = ap (λ p. p.0) stopped in
                    let d = Decodes-entity_to_thread codecs row.entity result decoded in
                    (Commits-read codecs T w table turns id step (returns result) i s r s' row
                      result later (ap (λ p. p.1) stopped) read decoded
                      (λ m there.
                        release_in_memory_stale (turns i).now id status values owner result m there
                          settled
                          (sym (
                              is_stranger-is_stale owner (lookup "lock_token" row.entity)
                                result.lock_token d.lock_token)
                            ∙ stranger)))
                | inr mine ↦
                    elim (Outcome-cases
                      (release_replacement codecs (turns i).now status values row.entity)) [
                        | inr (x, failed) ↦ absurd (ground (arith, read, mine, failed, h))
                        | inl (replacement, wrote) ↦
                            let (t, decoded) =
                              legible r row.entity later (table.found-get_entity r id row read) in
                            let d = Decodes-entity_to_thread codecs row.entity t decoded in
                            let now = (turns i).now in
                            replace_row-Commits codecs T w table turns moves id step i retry s r s'
                              row (cas_etag row) replacement t (unlocked now status values t) result
                              later read (cas_etag-Carries row) d
                              (release_replacement-row_key codecs lossless row.entity t d now status
                                values replacement wrote)
                              (λ valid new.
                                release_replacement-Decodes codecs lossless row.entity t d now
                                  status values replacement new wrote valid)
                              (λ m there.
                                release_in_memory_owner now id status values owner t m there settled
                                  (sym (
                                      is_stranger-is_stale owner (lookup "lock_token" row.entity)
                                        t.lock_token d.lock_token)
                                    ∙ mine))
                              again (λ c. c) (rw (release_attempt, read, mine, wrote) at h)
                      ]
              ]
        ]

    release_attempts-Commits :
        (n : ℕ) (u s' : T.State) (result : Thread V)
        → Others turns s u
        → release_attempts codecs T n turns id status values owner u ≡ (returns result, s')
        → Returned result s s'
    unfolding release_attempts
    release_attempts-Commits zero u s' result later h = absurd (ground (arith, h))
    release_attempts-Commits (suc n) u s' result later h =
        release_attempt-Commits n (release_attempts codecs T n turns id status values owner)
          ((turns n).before u) s' result
          (λ x after ended. release_attempts-Commits n x s' result after ended)
          (moved_before n later) h

  -- Whatever other callers do between its requests, if they leave rows of the thread that read as
  -- threads, a call of `release_run_lock` that returns returns what the in-memory store returns at one moment after its start, and at that moment
  -- makes the change of the in-memory store: the owner's release sets the status, the values if
  -- they are given and the time, and ends the lock, in one step; the release of any other token
  -- changes nothing; no other thread changes.
  pub release_run_lock-Commits :
      (s s' : T.State) (result : Thread V)
      → AreLegible codecs T w turns id s
      → release_run_lock codecs T turns id status values owner s ≡ (returns result, s')
      → Returned result s s'
  unfolding release_run_lock
  release_run_lock-Commits s s' result legible h = elim (Bool-cases (status == busy)) [
    | inl refused ↦ absurd (ground (arith, refused, h))
    | inr settled ↦
        release_attempts-Commits s legible settled 3 s s' result still
          (rw (release_run_lock, settled) at h)
  ]
