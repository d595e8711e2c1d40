-- ===== src/Tables/Store/Renew.antt =====
-- `renew_run_lock` of stores/azure_table.py against that of `InMemoryThreadStore`.
use azure_functions_langgrap.Base.{
  ℕ, String, Bool, true, false, some, string_eq, ◌≡◌, refl, ◌∙◌, ap, sym, arith, Outcome, returns,
  raises, Outcome-cases, Bool-cases, returns-injective, inl, inr, ◌⊎◌,
}
use mathlib.Core.Path.{subst, subst⁻¹}
use azure_functions_langgrap.Base.Dict.{lookup, insert}
use azure_functions_langgrap.Platform.Threads.{Thread}
use azure_functions_langgrap.Platform.Stores.{Store, renewed, is_stale}
use azure_functions_langgrap.Platform.Stores.{renew_run_lock as renew_in_memory}
use azure_functions_langgrap.Tables.{
  TableError, limit_exceeded, type_error, value_error, key_error, bound_to, release_error, modified,
  not_found, service_error,
}
use azure_functions_langgrap.Tables.Threads.{Codecs}
use azure_functions_langgrap.Tables.Threads.Decodes.{Decodes, Decodes-entity_to_thread}
use azure_functions_langgrap.Tables.Service.{TableClient, View, IsTable, Row, merges, renewal_etag}
use azure_functions_langgrap.Tables.Service.Etags.{update-Replaced, renewal_etag-Carries}
use azure_functions_langgrap.Tables.Requests.{Turn, is_stranger, renew_patch}
use azure_functions_langgrap.Tables.Store.{renewal_result, renew_run_lock}
use azure_functions_langgrap.Tables.Store.Patches.{renew_patch-Decodes}
use azure_functions_langgrap.Tables.Store.Abstraction.{
  Others, still, moved_before, moved_between, Loses, over, loses, AreLegible, Commits,
  Commits-Replaced, Commits-read,
}
use azure_functions_langgrap.Tables.Store.Release.{is_stranger-is_stale}

module _ {V : Type 0} (now : ℕ) (id owner : String) (t : Thread V) (m : Store V)
    (there : lookup id m ≡ some t) where
  renew_in_memory_owner :
      is_stale (some owner) t.lock_token ≡ false
      → renew_in_memory now id owner m ≡ (true, insert id (renewed now t) m)
  unfolding renew_in_memory
  renew_in_memory_owner mine = rw (there, mine) refl

  renew_in_memory_stale :
      is_stale (some owner) t.lock_token ≡ true → renew_in_memory now id owner m ≡ (false, m)
  unfolding renew_in_memory
  renew_in_memory_stale stale = rw (there, stale) refl

module _ {V : Type 0} (codecs : Codecs V) (T : TableClient) (w : View T) (table : IsTable T w)
    (turn : Turn T.State)
    (moves : (s : T.State) → w.Follows s (turn.before s) × w.Follows s (turn.between s))
    (id owner : String) where
  abbrev step : ℕ → Store V → Bool × Store V
  step i m = renew_in_memory turn.now id owner m

  -- The one turn of the call.
  abbrev turns : ℕ → Turn T.State
  turns i = turn

  abbrev pub Answered : Bool → T.State → T.State → Type 0
  Answered answer s s' =
      Commits codecs T w turns id step answer s s' ⊎ ((answer ≡ false) × Loses T turns id 1 s s')

  -- What the request to write came to.
  renewal_result-Answered :
      (sent : Outcome {0, 0} TableError Unit × T.State) (answer : Bool) (s' : T.State)
      → renewal_result codecs T sent ≡ (returns answer, s')
      → ((sent ≡ (returns tt, s')) × (answer ≡ true))
        ⊎ ((sent ≡ (raises modified, s')) × (answer ≡ false))
  unfolding renewal_result
  renewal_result-Answered (returns tt, u) answer s' h =
      inl (ap (λ p. (returns tt, p.1)) h, returns-injective answer true (sym (ap (λ p. p.0) h)))
  renewal_result-Answered (raises modified, u) answer s' h =
      inr
        (ap (λ p. (raises modified, p.1)) h, returns-injective answer false (sym (ap (λ p. p.0) h)))
  renewal_result-Answered (raises not_found, u) answer s' h = absurd (ground (arith, h))
  renewal_result-Answered (raises (limit_exceeded a b c), u) answer s' h =
      absurd (ground (arith, h))
  renewal_result-Answered (raises (type_error a), u) answer s' h = absurd (ground (arith, h))
  renewal_result-Answered (raises (value_error a), u) answer s' h = absurd (ground (arith, h))
  renewal_result-Answered (raises (key_error a), u) answer s' h = absurd (ground (arith, h))
  renewal_result-Answered (raises (bound_to a b), u) answer s' h = absurd (ground (arith, h))
  renewal_result-Answered (raises (release_error a), u) answer s' h = absurd (ground (arith, h))
  renewal_result-Answered (raises (service_error a), u) answer s' h = absurd (ground (arith, h))

  renewal-Commits :
      (s r s' : T.State) (row : Row) (t : Thread V)
      → Others turns s r
      → T.get_entity r id ≡ returns row
      → Decodes codecs row.entity t
      → is_stale (some owner) t.lock_token ≡ false
      → T.update_entity (turn.between r) merges (renew_patch id turn.now) (renewal_etag row)
        ≡ (returns tt, s')
      → Commits codecs T w turns id step true s s'
  unfolding lookup
  renewal-Commits s r s' row t later read d mine sent =
      let patch = renew_patch id turn.now in
      let replaced =
        update-Replaced T w table r (turn.between r) s' id merges patch row (renewal_etag row) read
          (renewal_etag-Carries row) (moves r).1 refl sent in
      Commits-Replaced codecs T w table turns id step true 0 s (turn.between r) s' merges patch
        row.entity t (renewed turn.now t) (moved_between 0 later) replaced d
        (λ stored key.
          renew_patch-Decodes codecs row.entity replaced.new t d key id turn.now stored)
        (λ m there. renew_in_memory_owner turn.now id owner t m there mine)

  -- Whatever other callers do between its requests, if they leave rows of the thread that read as
  -- threads, a call of `renew_run_lock` that returns answers what the in-memory store answers at
  -- one moment after its start and makes its change then, so that only the owner extends a lock; or
  -- it answers `False` after the service refused its write, with nothing done to the table but by
  -- the other callers.
  pub renew_run_lock-Answered :
      (s s' : T.State) (answer : Bool)
      → AreLegible codecs T w turns id s
      → renew_run_lock codecs T turn id owner s ≡ (returns answer, s')
      → Answered answer s s'
  unfolding renew_run_lock lookup
  renew_run_lock-Answered s s' answer legible h =
      let r = turn.before s in
      let later = moved_before 0 still in
      elim (Outcome-cases (T.get_entity r id)) [
        | inr (x, failed) ↦ absurd (ground (arith, failed, h))
        | inl (row, read) ↦
            let (t, decoded) = legible r row.entity later (table.found-get_entity r id row read) in
            let d = Decodes-entity_to_thread codecs row.entity t decoded in
            let test =
              is_stranger-is_stale (some owner) (lookup "lock_token" row.entity) t.lock_token
                d.lock_token in
            elim (Bool-cases (is_stranger (some owner) (lookup "lock_token" row.entity))) [
              | inl stranger ↦
                  let stopped = rw (renew_run_lock, read, stranger) at h in
                  let same = returns-injective false answer (ap (λ p. p.0) stopped) in
                  inl (
                    subst (λ b. Commits codecs T w turns id step b s s') same
                      (Commits-read codecs T w table turns id step false 0 s r s' row t later
                        (ap (λ p. p.1) stopped) read decoded
                        (λ m there.
                          renew_in_memory_stale turn.now id owner t m there (sym test ∙ stranger))))
              | inr mine ↦
                  elim (renewal_result-Answered
                    (T.update_entity (turn.between r) merges (renew_patch id turn.now)
                      (renewal_etag row))
                    answer s' (rw (renew_run_lock, read, mine) at h)) [
                      | inr (lost, no_more) ↦
                          let same =
                            table.lost (turn.between r) s' merges (renew_patch id turn.now)
                              (renewal_etag row) lost in
                          inr (
                            no_more,
                            loses merges (renew_patch id turn.now) (renewal_etag row) refl
                                (lost ∙ ap (λ (y : T.State). (raises modified, y)) same)
                                (subst⁻¹ (λ u. Loses T turns id 0 (turn.between r) u) same over),
                          )
                      | inl (sent, renewed_it) ↦ inl (
                          subst⁻¹ (λ b. Commits codecs T w turns id step b s s') renewed_it
                            (renewal-Commits s r s' row t later read d (sym test ∙ mine) sent))
                    ]
            ]
      ]
