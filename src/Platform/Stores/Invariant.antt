-- ===== src/Platform/Stores/Invariant.antt =====
-- What holds of every InMemoryThreadStore of platform/stores.py.
use mathlib.Core.Path.{subst}
use azure_functions_langgrap.Base.{
  ℕ, String, Bool, true, false, Option, none, some, is_some, List, [], ◌∷◌, ◌==◌, string_eq,
  if◌then◌else◌, ◌≡◌, refl, arith, ==_iff, Bool-cases, inl, inr, returns, raises,
}
use azure_functions_langgrap.Base.Dict.{
  Dict, lookup, insert, remove, lookup-insert, lookup-remove, Unique, Unique-insert, Unique-remove,
}
use azure_functions_langgrap.Platform.Threads.{Thread, ThreadStatus, busy, status_eq}
use azure_functions_langgrap.Platform.Stores.{
  Store, Changes, is_stale, new_thread, updated, locked, unlocked, renewed, update_at,
  try_acquire_at, release_at, renew_at, conflicts, key_error,
}
use azure_functions_langgrap.Platform.Stores.Runs.{
  Call, creates, updates, deletes, acquires, releases, renews, perform, run,
}

module _ {V : Type 0} where
  -- A thread stands under its own id, and has a lock token exactly when it has an expiry.
  pub record IsThread (id : String) (t : Thread V) : Type 0 where
    pub own_id : t.thread_id ≡ id
    pub paired : is_some t.lock_token ≡ is_some t.lock_expires_at

  pub record IsValid (m : Store V) : Type 0 where
    pub unique : Unique m
    pub each : (id : String) (t : Thread V) → lookup id m ≡ some t → IsThread id t

  insert-IsValid :
      (id : String) (t : Thread V) (m : Store V)
      → IsValid m
      → IsThread id t
      → IsValid (insert id t m)
  insert-IsValid id t m v ok = record {
    unique = Unique-insert id t m v.unique;
    each = λ j u h. elim (Bool-cases (id == j)) [
      | inl same ↦
          subst (λ x. IsThread j x) (ground (arith, h, same, lookup-insert id j t m))
            (subst (λ x. IsThread x t) ((==_iff id j).0 same) ok)
      | inr other ↦ v.each j u (ground (arith, h, other, lookup-insert id j t m))
    ];
  }

  either-IsValid :
      {A : Type 0} (b : Bool) (x y : A × Store V)
      → IsValid x.1
      → IsValid y.1
      → IsValid (if b then x else y).1
  either-IsValid true x y p q = p
  either-IsValid false x y p q = q

  module _ (id : String) (m : Store V) (v : IsValid m) where
    update_at-IsValid :
        (now : ℕ) (c : Changes V) (o : Option (Thread V))
        → lookup id m ≡ o
        → IsValid (update_at now id c o m).1
    unfolding update_at
    update_at-IsValid now c none e = v
    update_at-IsValid now c (some t) e =
        let ok : IsThread id t = v.each id t e in
        insert-IsValid id (updated now c t) m v (record { own_id = ok.own_id; paired = ok.paired })

    try_acquire_at-IsValid :
        (now : ℕ) (token : String) (assistant : Option String) (o : Option (Thread V))
        → lookup id m ≡ o
        → IsValid (try_acquire_at now token id assistant o m).1
    unfolding try_acquire_at
    try_acquire_at-IsValid now token assistant none e = v
    try_acquire_at-IsValid now token assistant (some t) e =
        either-IsValid (conflicts t.assistant_id assistant) _ _ v (
          either-IsValid (t.status == busy) _ _ v (
            insert-IsValid id (locked now token assistant t) m v
              (record { own_id = (v.each id t e).own_id; paired = refl })))

    release_at-IsValid :
        (now : ℕ) (status : ThreadStatus) (values : Option (Dict String V)) (owner : Option String)
        (o : Option (Thread V))
        → lookup id m ≡ o
        → IsValid (release_at now id status values owner o m).1
    unfolding release_at
    release_at-IsValid now status values owner none e = v
    release_at-IsValid now status values owner (some t) e =
        either-IsValid (is_stale owner t.lock_token) _ _ v (
          insert-IsValid id (unlocked now status values t) m v
            (record { own_id = (v.each id t e).own_id; paired = refl }))

    renew_at-IsValid :
        (now : ℕ) (owner : String) (o : Option (Thread V))
        → lookup id m ≡ o
        → IsValid (renew_at now id owner o m).1
    unfolding renew_at
    renew_at-IsValid now owner none e = v
    renew_at-IsValid now owner (some t) e = elim (Bool-cases (is_stale (some owner) t.lock_token)) [
      | inl stale ↦ rw stale v
      | inr mine ↦ rw mine (
          insert-IsValid id (renewed now t) m v
            (record { own_id = (v.each id t e).own_id; paired = ground (arith, mine) }))
    ]

  perform-IsValid : (c : Call V) (m : Store V) → IsValid m → IsValid (perform c m)
  unfolding perform
  perform-IsValid (creates now id metadata) m v =
      either-IsValid (is_some (lookup id m)) _ _ v (
        insert-IsValid id (new_thread now id metadata) m v
          (record { own_id = refl; paired = refl }))
  perform-IsValid (updates now id c) m v = update_at-IsValid id m v now c (lookup id m) refl
  perform-IsValid (deletes id) m v =
      either-IsValid (is_some (lookup id m)) (returns tt, remove id m) (raises (key_error id), m)
        (record {
          unique = Unique-remove id m v.unique;
          each = λ j t h. v.each j t (ground (arith, h, lookup-remove id j m));
        })
        v
  perform-IsValid (acquires now token id assistant) m v =
      try_acquire_at-IsValid id m v now token assistant (lookup id m) refl
  perform-IsValid (releases now id status values owner) m v =
      either-IsValid (status == busy) _ _ v
        (release_at-IsValid id m v now status values owner (lookup id m) refl)
  perform-IsValid (renews now id owner) m v = renew_at-IsValid id m v now owner (lookup id m) refl

  run_from-IsValid : (calls : List (Call V)) (m : Store V) → IsValid m → IsValid (run calls m)
  unfolding run
  run_from-IsValid [] m v = v
  run_from-IsValid (c ∷ cs) m v = run_from-IsValid cs (perform c m) (perform-IsValid c m v)

  -- Every sequence of calls on a new store leaves each thread under its own id, once, with a lock
  -- token exactly when it has an expiry.
  pub run-IsValid : (calls : List (Call V)) → IsValid (run calls [])
  unfolding lookup
  run-IsValid calls =
      run_from-IsValid calls []
        (record { unique = tt; each = λ id t h. absurd (ground (arith, h)) })
