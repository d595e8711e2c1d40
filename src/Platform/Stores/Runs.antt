-- ===== src/Platform/Stores/Runs.antt =====
-- Sequences of calls on one InMemoryThreadStore of platform/stores.py. Every method holds the
-- store's lock throughout, so the calls of all request handlers are one sequence.
use azure_functions_langgrap.Base.{
  ℕ, String, false, Option, List, [], ◌∷◌, ◌==◌, string_eq, ◌≡◌, arith, Option-cases, inl, inr,
}
use azure_functions_langgrap.Base.Dict.{Dict, lookup, lookup-insert, lookup-remove}
use azure_functions_langgrap.Platform.Threads.{ThreadStatus, status_eq}
use azure_functions_langgrap.Platform.Stores.{
  Store, Changes, create, update, delete, try_acquire_run_lock, release_run_lock, renew_run_lock,
  new_thread, updated, locked, unlocked, renewed,
}

pub data Call (V : Type 0) : Type 0 where
  creates : ℕ → String → Option (Dict String V) → Call V
  updates : ℕ → String → Changes V → Call V
  deletes : String → Call V
  acquires : ℕ → String → String → Option String → Call V
  releases : ℕ → String → ThreadStatus → Option (Dict String V) → Option String → Call V
  renews : ℕ → String → String → Call V

module _ {V : Type 0} where
  -- The thread that a call names.
  abbrev pub subject : Call V → String
  subject (creates now id metadata) = id
  subject (updates now id c) = id
  subject (deletes id) = id
  subject (acquires now token id assistant) = id
  subject (releases now id status values owner) = id
  subject (renews now id owner) = id

  unfoldable pub perform : Call V → Store V → Store V
  unfolding create update delete try_acquire_run_lock release_run_lock renew_run_lock
  perform (creates now id metadata) m = (create now id metadata m).1
  perform (updates now id c) m = (update now id c m).1
  perform (deletes id) m = (delete id m).1
  perform (acquires now token id assistant) m = (try_acquire_run_lock now token id assistant m).1
  perform (releases now id status values owner) m =
      (release_run_lock now id status values owner m).1
  perform (renews now id owner) m = (renew_run_lock now id owner m).1

  unfoldable pub run : List (Call V) → Store V → Store V
  run [] m = m
  run (c ∷ cs) m = run cs (perform c m)

  -- A call changes no thread but the one that it names.
  pub lookup-perform_ne :
      (c : Call V) (j : String) (m : Store V)
      → subject c == j ≡ false
      → lookup j (perform c m) ≡ lookup j m
  unfolding perform
  lookup-perform_ne (creates now id metadata) j m h =
      ground (arith, lookup-insert id j (new_thread now id metadata) m)
  lookup-perform_ne (updates now id c) j m h = elim (Option-cases (lookup id m)) [
    | inl missing ↦ ground (arith, missing)
    | inr (t, there) ↦ ground (arith, there, lookup-insert id j (updated now c t) m)
  ]
  lookup-perform_ne (deletes id) j m h = ground (arith, lookup-remove id j m)
  lookup-perform_ne (acquires now token id assistant) j m h = elim (Option-cases (lookup id m)) [
    | inl missing ↦ ground (arith, missing)
    | inr (t, there) ↦ ground (arith, there, lookup-insert id j (locked now token assistant t) m)
  ]
  lookup-perform_ne (releases now id status values owner) j m h =
      elim (Option-cases (lookup id m)) [
        | inl missing ↦ ground (arith, missing)
        | inr (t, there) ↦
            ground (arith, there, lookup-insert id j (unlocked now status values t) m)
      ]
  lookup-perform_ne (renews now id owner) j m h = elim (Option-cases (lookup id m)) [
    | inl missing ↦ ground (arith, missing)
    | inr (t, there) ↦ ground (arith, there, lookup-insert id j (renewed now t) m)
  ]
