-- ===== src/Platform/Stores/Queries/Pages.antt =====
-- The results of `search` and `count` of InMemoryThreadStore in platform/stores.py: which threads,
-- in which order, on which page.
use mathlib.Core.List.{Perm}
use mathlib.Core.List.Perm
use azure_functions_langgrap.Base.{
  ℕ, zero, suc, ◌+◌, ◌≤◌, String, Bool, true, Option, List, [], ◌∷◌, ◌++◌, Eq, ◌≡◌, refl, ap, sym,
  ◌&&◌, ◌∙◌, arith, Bool-cases, inl, inr, returns, filter, length, take, drop, leb, ℤ, pos, to_ℕ,
}
use azure_functions_langgrap.Base.Dict.{Dict}
use azure_functions_langgrap.Platform.Threads.{Thread, ThreadStatus}
use azure_functions_langgrap.Platform.Stores.{Store}
use azure_functions_langgrap.Platform.Stores.Queries.{
  threads, insert_newest, newest_first, has_status, has_metadata, matches, filtered_threads,
  search_threads, count,
}

module _ {V : Type 0} where
  -- Every thread of the list was created no later than `limit`.
  abbrev pub AllBefore : ℕ → List (Thread V) → Type 0
  AllBefore limit [] = Unit
  AllBefore limit (t ∷ ts) = (t.created_at ≤ limit) × AllBefore limit ts

  -- Each thread was created no earlier than those behind it.
  abbrev pub NewestFirst : List (Thread V) → Type 0
  NewestFirst [] = Unit
  NewestFirst (t ∷ ts) = AllBefore t.created_at ts × NewestFirst ts

  AllBefore-mono : (a b : ℕ) (ts : List (Thread V)) → a ≤ b → AllBefore a ts → AllBefore b ts
  AllBefore-mono a b [] h p = tt
  AllBefore-mono a b (t ∷ ts) h p = (omega arith, AllBefore-mono a b ts h p.1)

  AllBefore-insert_newest :
      (a : ℕ) (t : Thread V) (ts : List (Thread V))
      → t.created_at ≤ a
      → AllBefore a ts
      → AllBefore a (insert_newest t ts)
  unfolding insert_newest
  AllBefore-insert_newest a t [] h p = (h, tt)
  AllBefore-insert_newest a t (u ∷ us) h p = elim (Bool-cases (leb u.created_at t.created_at)) [
    | inl before ↦ rw before (h, p)
    | inr behind ↦ rw behind (p.0, AllBefore-insert_newest a t us h p.1)
  ]

  NewestFirst-insert_newest :
      (t : Thread V) (ts : List (Thread V)) → NewestFirst ts → NewestFirst (insert_newest t ts)
  unfolding insert_newest
  NewestFirst-insert_newest t [] p = (tt, tt)
  NewestFirst-insert_newest t (u ∷ us) p = elim (Bool-cases (leb u.created_at t.created_at)) [
    | inl before ↦ rw before (
      (
        ground (arith, before),
        AllBefore-mono u.created_at t.created_at us (ground (arith, before)) p.0,
      ),
      p,
    )
    | inr behind ↦ rw behind (
      AllBefore-insert_newest u.created_at t us (ground (arith, behind)) p.0,
      NewestFirst-insert_newest t us p.1,
    )
  ]

  newest_first-NewestFirst : (ts : List (Thread V)) → NewestFirst (newest_first ts)
  unfolding newest_first
  newest_first-NewestFirst [] = tt
  newest_first-NewestFirst (t ∷ ts) =
      NewestFirst-insert_newest t (newest_first ts) (newest_first-NewestFirst ts)

  insert_newest-perm : (t : Thread V) (ts : List (Thread V)) → Perm (insert_newest t ts) (t ∷ ts)
  unfolding insert_newest
  insert_newest-perm t [] = Perm.refl (t ∷ [])
  insert_newest-perm t (u ∷ us) = elim (Bool-cases (leb u.created_at t.created_at)) [
    | inl before ↦ rw before (Perm.refl (t ∷ u ∷ us))
    | inr behind ↦ rw behind (Perm.trans (Perm.cons u (insert_newest-perm t us)) (Perm.swap t u us))
  ]

  newest_first-perm : (ts : List (Thread V)) → Perm (newest_first ts) ts
  unfolding newest_first
  newest_first-perm [] = Perm.refl []
  newest_first-perm (t ∷ ts) =
      Perm.trans (insert_newest-perm t (newest_first ts)) (Perm.cons t (newest_first-perm ts))

  length-insert_newest :
      (t : Thread V) (ts : List (Thread V)) → length (insert_newest t ts) ≡ suc (length ts)
  unfolding insert_newest
  length-insert_newest t [] = refl
  length-insert_newest t (u ∷ us) = ground (arith, length-insert_newest t us)

  length-newest_first : (ts : List (Thread V)) → length (newest_first ts) ≡ length ts
  unfolding newest_first
  length-newest_first [] = refl
  length-newest_first (t ∷ ts) =
      length-insert_newest t (newest_first ts) ∙ ap suc (length-newest_first ts)

module _ {ℓ} {A : Type ℓ} where
  take-append-drop : (xs : List A) (n m : ℕ) → take xs n ++ take (drop xs n) m ≡ take xs (n + m)
  take-append-drop xs zero m = ap (take xs) (omega arith)
  take-append-drop [] (suc n) m = let e : suc n + m ≡ suc (n + m) = omega arith in rw e (take_nil m)
    where
      take_nil : (k : ℕ) → take {A = A} [] k ≡ []
      take_nil zero = refl
      take_nil (suc k) = refl
  take-append-drop (x ∷ xs) (suc n) m =
      let e : suc n + m ≡ suc (n + m) = omega arith in
      rw e (ap (λ r. x ∷ r) (take-append-drop xs n m))

  drop-drop : (xs : List A) (n m : ℕ) → drop (drop xs n) m ≡ drop xs (n + m)
  drop-drop xs zero m = ap (drop xs) (omega arith)
  drop-drop [] (suc n) m = let e : suc n + m ≡ suc (n + m) = omega arith in rw e (drop_nil m)
    where
      drop_nil : (k : ℕ) → drop {A = A} [] k ≡ []
      drop_nil zero = refl
      drop_nil (suc k) = refl
  drop-drop (x ∷ xs) (suc n) m =
      let e : suc n + m ≡ suc (n + m) = omega arith in rw e (drop-drop xs n m)

  length-take : (xs : List A) (n : ℕ) → length (take xs n) ≤ n
  length-take xs zero = omega arith
  length-take [] (suc n) = omega arith
  length-take (x ∷ xs) (suc n) = omega (arith, length-take xs n)

  -- Every element passes the test.
  abbrev pub AllPass : (A → Bool) → List A → Type 0
  AllPass p [] = Unit
  AllPass p (x ∷ xs) = (p x ≡ true) × AllPass p xs

  AllPass-filter : (p : A → Bool) (xs : List A) → AllPass p (filter p xs)
  AllPass-filter p [] = tt
  AllPass-filter p (x ∷ xs) = elim (Bool-cases (p x)) [
    | inl passes ↦ rw passes (passes, AllPass-filter p xs)
    | inr fails ↦ rw fails (AllPass-filter p xs)
  ]

  AllPass-take : (p : A → Bool) (xs : List A) (n : ℕ) → AllPass p xs → AllPass p (take xs n)
  AllPass-take p xs zero h = tt
  AllPass-take p [] (suc n) h = tt
  AllPass-take p (x ∷ xs) (suc n) h = (h.0, AllPass-take p xs n h.1)

  AllPass-drop : (p : A → Bool) (xs : List A) (n : ℕ) → AllPass p xs → AllPass p (drop xs n)
  AllPass-drop p xs zero h = h
  AllPass-drop p [] (suc n) h = tt
  AllPass-drop p (x ∷ xs) (suc n) h = AllPass-drop p xs n h.1

module _ {V : Type 0} where
  AllPass-insert_newest :
      (p : Thread V → Bool) (t : Thread V) (ts : List (Thread V))
      → p t ≡ true
      → AllPass p ts
      → AllPass p (insert_newest t ts)
  unfolding insert_newest
  AllPass-insert_newest p t [] h a = (h, tt)
  AllPass-insert_newest p t (u ∷ us) h a = elim (Bool-cases (leb u.created_at t.created_at)) [
    | inl before ↦ rw before (h, a)
    | inr behind ↦ rw behind (a.0, AllPass-insert_newest p t us h a.1)
  ]

  AllPass-newest_first :
      (p : Thread V → Bool) (ts : List (Thread V)) → AllPass p ts → AllPass p (newest_first ts)
  unfolding newest_first
  AllPass-newest_first p [] a = tt
  AllPass-newest_first p (t ∷ ts) a =
      AllPass-insert_newest p t (newest_first ts) a.0 (AllPass-newest_first p ts a.1)

  AllBefore-take : (a : ℕ) (ts : List (Thread V)) (n : ℕ) → AllBefore a ts → AllBefore a (take ts n)
  AllBefore-take a ts zero h = tt
  AllBefore-take a [] (suc n) h = tt
  AllBefore-take a (t ∷ ts) (suc n) h = (h.0, AllBefore-take a ts n h.1)

  NewestFirst-take : (ts : List (Thread V)) (n : ℕ) → NewestFirst ts → NewestFirst (take ts n)
  NewestFirst-take ts zero h = tt
  NewestFirst-take [] (suc n) h = tt
  NewestFirst-take (t ∷ ts) (suc n) h =
      (AllBefore-take t.created_at ts n h.0, NewestFirst-take ts n h.1)

  NewestFirst-drop : (ts : List (Thread V)) (n : ℕ) → NewestFirst ts → NewestFirst (drop ts n)
  NewestFirst-drop ts zero h = h
  NewestFirst-drop [] (suc n) h = tt
  NewestFirst-drop (t ∷ ts) (suc n) h = NewestFirst-drop ts n h.1

module _ {V : Type 0} ⦃e : Eq V⦄ (metadata : Option (Dict String V)) (status : Option ThreadStatus)
    (m : Store V) where
  -- A page holds at most `limit` threads, all of which pass both filters, newest first.
  pub search_page :
      (limit offset : ℤ) (page : List (Thread V))
      → search_threads metadata status limit offset m ≡ returns page
      → (length page ≤ to_ℕ limit) × AllPass (matches metadata status) page × NewestFirst page
  unfolding search_threads filtered_threads
  search_page limit offset page h =
      let full : List (Thread V) = newest_first (filtered_threads metadata status m) in
      let e : take (drop full (to_ℕ offset)) (to_ℕ limit) ≡ page = ground (arith, h) in
      rw (← e) (
        length-take (drop full (to_ℕ offset)) (to_ℕ limit),
        AllPass-take _ _ (to_ℕ limit) (
            AllPass-drop _ _ (to_ℕ offset)
              (AllPass-newest_first _ _ (AllPass-filter _ (threads m)))),
        NewestFirst-take _ (to_ℕ limit) (
            NewestFirst-drop _ (to_ℕ offset)
              (newest_first-NewestFirst (filtered_threads metadata status m))),
      )

  -- A search that returns gives the slice that starts at `offset` and has at most `limit` threads of
  -- one list: the threads of the store that have the status and all the entries of the metadata that
  -- are asked for, no one else and each as often as in the store, newest first. `count` is the length
  -- of that list.
  pub search_threads-slice :
      (limit offset : ℕ) (page : List (Thread V))
      → search_threads metadata status (pos limit) (pos offset) m ≡ returns page
      → (full : List (Thread V)) × Perm full
          (filter (λ t. has_status status t.status && has_metadata metadata t.metadata) (threads m))
        × NewestFirst full
        × (page ≡ take (drop full offset) limit)
        × (count metadata status m ≡ length full)
  unfolding search_threads count filtered_threads
  search_threads-slice limit offset page h =
      let found : List (Thread V) = filtered_threads metadata status m in
      let full : List (Thread V) = newest_first found in
      let e : take (drop full offset) limit ≡ page = ground (arith, h) in
      (
        full,
        newest_first-perm found,
        newest_first-NewestFirst found,
        sym e,
        sym (length-newest_first found),
      )

  -- Two pages in a row are the one page of both sizes: paging neither skips nor repeats a thread.
  pub search_pages :
      (offset n k : ℕ) (first second : List (Thread V))
      → search_threads metadata status (pos n) (pos offset) m ≡ returns first
      → search_threads metadata status (pos k) (pos (offset + n)) m ≡ returns second
      → search_threads metadata status (pos (n + k)) (pos offset) m ≡ returns (first ++ second)
  unfolding search_threads
  search_pages offset n k first second p q =
      let full : List (Thread V) = newest_first (filtered_threads metadata status m) in
      cc (take-append-drop (drop full offset) n k, drop-drop full offset n)
