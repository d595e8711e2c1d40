-- ===== src/Tables/Store/Sweep/Owner.antt =====
-- The owner of a lock that `reset_stale_locks` of stores/azure_table.py took away.
use mathlib.Core.Path.{subst⁻¹}
use azure_functions_langgrap.Base.{
  ℕ, String, false, Option, none, some, [], ◌∷◌, ◌==◌, string_eq, ◌≡◌, refl, ◌∙◌, ap, sym, returns,
  ==-refl, ==_iff, Bool-cases, inl, inr, returns-injective, to_ℕ, ℤ,
}
use azure_functions_langgrap.Base.Dict.{Dict, lookup, insert}
use azure_functions_langgrap.Platform.Threads.{Thread, ThreadStatus, busy, status_eq}
use azure_functions_langgrap.Platform.Stores.{Store, unlocked, is_stale}
use azure_functions_langgrap.Platform.Stores.{release_run_lock as release_in_memory}
use azure_functions_langgrap.Tables.{text, Entity}
use azure_functions_langgrap.Tables.Threads.{Codecs, entity_to_thread}
use azure_functions_langgrap.Tables.Threads.Decodes.{
  Decodes-entity_to_thread, entity_to_thread-Decodes,
}
use azure_functions_langgrap.Tables.Service.{TableClient, View, IsTable, IsQuery}
use azure_functions_langgrap.Tables.Service.Etags.{some-injective}
use azure_functions_langgrap.Tables.Requests.{Turn}
use azure_functions_langgrap.Tables.Store.{release_run_lock}
use azure_functions_langgrap.Tables.Store.Abstraction.{
  AreMoves, Others, still, moved_before, moved_between, row_key, thread_of-Decodes, thread_store,
  thread_store-found, found-thread_store,
}
use azure_functions_langgrap.Tables.Store.Patches.{reset_patch-Decodes}
use azure_functions_langgrap.Tables.Store.Release.{
  release_run_lock-Commits, release_in_memory_owner,
}
use azure_functions_langgrap.Tables.Store.Sweep.{reset_stale_locks}
use azure_functions_langgrap.Tables.Store.Sweep.Resets.{
  Resets, Sweeps, ends, others, resets, reset_stale_locks-Sweeps,
}
use azure_functions_langgrap.Tables.Store.Writes.{AreLossless}

-- Nobody else calls the table.
abbrev pub AreQuiet : {S : Type 0} → (ℕ → Turn S) → Type 0
AreQuiet {S} turns = (i : ℕ) (s : S) → ((turns i).before s ≡ s) × ((turns i).between s ≡ s)

pub Others-quiet :
    {S : Type 0} (turns : ℕ → Turn S) → AreQuiet turns → {s u : S} → Others turns s u → u ≡ s
Others-quiet turns quiet still = refl
Others-quiet turns quiet (moved_before {u} i more) = (quiet i u).0 ∙ Others-quiet turns quiet more
Others-quiet turns quiet (moved_between {u} i more) = (quiet i u).1 ∙ Others-quiet turns quiet more

release_in_memory_mine :
    {V : Type 0} (now : ℕ) (id owner : String) (status : ThreadStatus)
    (values : Option (Dict String V)) (t : Thread V)
    → status == busy ≡ false
    → t.lock_token ≡ some owner
    → release_in_memory now id status values (some owner) ((id, t) ∷ [])
      ≡ (returns (unlocked now status values t), (id, unlocked now status values t) ∷ [])
unfolding lookup insert
release_in_memory_mine now id owner status values t settled held =
    release_in_memory_owner now id status values (some owner) t ((id, t) ∷ [])
      (rw (==-refl id) refl) settled (ap (is_stale (some owner)) held ∙ mine)
    ∙ rw (==-refl id) refl
  where
    mine : is_stale (some owner) (some owner) ≡ false
    mine = rw (==-refl owner) refl

module _ {V : Type 0} (codecs : Codecs V) (T : TableClient) (w : View T) (table : IsTable T w)
    (turns : ℕ → Turn T.State) (quiet : AreQuiet turns) where
  quiet-AreMoves : AreMoves T w turns
  quiet-AreMoves i s = (
    subst⁻¹ (λ u. w.Follows s u) (quiet i s).0 (table.stays s),
    subst⁻¹ (λ u. w.Follows s u) (quiet i s).1 (table.stays s),
  )

  -- The row of a thread that is held under a token.
  abbrev Held : String → Option String → T.State → Type 0
  Held id token s =
      (e : Entity) × (t : Thread V) × (w.find s id ≡ some e)
      × (entity_to_thread codecs e ≡ returns t)
      × (t.lock_token ≡ token)

  module _ (now older : ℕ) (status : ThreadStatus) (id : String) (token : Option String) where
    Resets-Held :
        (s u : T.State) → Resets T w now older status s u → Held id token s → Held id token u
    Resets-Held s u reset (e, t, found, decoded, held) =
        let r = reset.replaced in
        elim (Bool-cases (reset.key == id)) [
          | inr apart ↦ (e, t, r.others id apart ∙ found, decoded, held)
          | inl same ↦
              let named : reset.key ≡ id = (==_iff reset.key id).0 same in
              let was = some-injective reset.old e (sym r.found ∙ ap (w.find s) named ∙ found) in
              let d =
                Decodes-entity_to_thread codecs reset.old t
                  (ap (entity_to_thread codecs) was ∙ decoded) in
              let after = record t { status = status; updated_at = reset.clock } in
              (
                r.new,
                after,
                ap (w.find u) (sym named) ∙ r.stored,
                entity_to_thread-Decodes codecs r.new after (
                    reset_patch-Decodes codecs reset.old r.new t d
                      (table.keyed u reset.key r.new r.stored
                        ∙ ap (λ (i : String). some (text i))
                            (row_key codecs T w table s reset.key reset.old t r.found d))
                      reset.key reset.clock status r.content),
                held,
              )
        ]

    -- A sweep does not touch the lock's token.
    Sweeps-Held :
        (q : T.State) {s s' : T.State} {n : ℕ}
        → Sweeps T w now older status turns q s s' n
        → Held id token s
        → Held id token s'
    Sweeps-Held q ends h = h
    Sweeps-Held q (others {s} {u} moved more) h =
        Sweeps-Held q more (subst⁻¹ (λ x. Held id token x) (Others-quiet turns quiet moved) h)
    Sweeps-Held q (resets {s} {u} r same more) h = Sweeps-Held q more (Resets-Held s u r h)

  -- A sweep of `reset_stale_locks` does not end the ownership of a lock: though it was reclaimed and
  -- as long as nobody else calls the table, a release by the run that held the lock, if it returns,
  -- is not ignored as that of a stale owner. It returns the thread with the run's status in the
  -- place of the one that the sweep gave, and without the lock, and the row reads as that thread.
  pub reset-keeps_owner :
      AreLossless codecs
      → IsQuery T w
      → (now : ℕ) (limit : ℤ) (status : ThreadStatus) (n : ℕ) (s s' s'' : T.State)
        (id owner : String) (e : Entity) (t : Thread V) (ended : ThreadStatus)
        (values : Option (Dict String V)) (result : Thread V)
      → reset_stale_locks T turns now limit status s ≡ (returns n, s')
      → w.find s id ≡ some e
      → entity_to_thread codecs e ≡ returns t
      → t.lock_token ≡ some owner
      → release_run_lock codecs T turns id ended values (some owner) s' ≡ (returns result, s'')
      → ended == busy ≡ false
      → (result.status ≡ ended)
        × (result.lock_token ≡ none)
        × (e'' : Entity) × (w.find s'' id ≡ some e'')
        × (entity_to_thread codecs e'' ≡ returns result)
  reset-keeps_owner lossless query now limit status n s s' s'' id owner e t ended values result
        swept found decoded held released settled =
      let (e', t', found', decoded', held') =
        Sweeps-Held now (to_ℕ limit) status id (some owner) s
          (reset_stale_locks-Sweeps T w now (to_ℕ limit) status table turns quiet-AreMoves query s
            s' limit n refl swept)
          (e, t, found, decoded, held) in
      let c =
        release_run_lock-Commits codecs lossless T w table turns quiet-AreMoves id ended values
          (some owner) s' s'' result
          (λ u x moved there. (
            t',
            ap (entity_to_thread codecs) (
                  some-injective x e' (
                    sym there
                    ∙ ap (λ (y : T.State). w.find y id) (Others-quiet turns quiet moved)
                    ∙ found'))
                ∙ decoded',
          ))
          released in
      let clock = (turns c.turn).now in
      let done =
        sym (
          ap (λ (m : Store V). release_in_memory clock id ended values (some owner) m)
            (ap (thread_store codecs T w id) (Others-quiet turns quiet c.later)
              ∙ thread_store-found codecs T w s' id e' t' found' (
                  thread_of-Decodes codecs T w e' t'
                    (Decodes-entity_to_thread codecs e' t' decoded')))
          ∙ release_in_memory_mine clock id owner ended values t' settled held')
        ∙ c.effect in
      let same = returns-injective (unlocked clock ended values t') result (ap (λ p. p.0) done) in
      let (e'', there, reads) =
        found-thread_store codecs T w s'' id result
          (sym (ap (λ p. p.1) done) ∙ ap (λ (x : Thread V). (id, x) ∷ []) same) in
      (
        ap (λ (x : Thread V). x.status) (sym same),
        ap (λ (x : Thread V). x.lock_token) (sym same),
        e'',
        there,
        reads,
      )
