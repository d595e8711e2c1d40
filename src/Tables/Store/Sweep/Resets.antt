-- ===== src/Tables/Store/Sweep/Resets.antt =====
-- What a sweep of `reset_stale_locks` of stores/azure_table.py does to the table.
use azure_functions_langgrap.Base.{
  ℕ, suc, ◌+◌, String, Bool, true, false, not, ◌||◌, some, List, [], ◌∷◌, ◌==◌, string_eq, ◌≡◌,
  refl, ◌∙◌, ap, sym, arith, Outcome, returns, raises, ◌>>=◌, Outcome-cases, Option-cases,
  Bool-cases, inl, inr, ◌⊎◌, returns-injective, to_nat, ℤ, is_negative, to_ℕ,
}
use mathlib.Core.Path.{subst, subst⁻¹}
use azure_functions_langgrap.Base.Dict.{lookup}
use azure_functions_langgrap.Platform.Threads.{ThreadStatus, idle, error, status_eq}
use azure_functions_langgrap.Tables.{
  text, Entity, TableError, limit_exceeded, type_error, value_error, key_error, bound_to,
  release_error, modified, not_found, service_error,
}
use azure_functions_langgrap.Tables.Json.{property_at}
use azure_functions_langgrap.Tables.Threads.{as_key}
use azure_functions_langgrap.Tables.Service.{
  TableClient, View, IsTable, IsListed, AreListed, IsQuery, Row, merges, cas_etag,
}
use azure_functions_langgrap.Tables.Service.Etags.{Replaced, Wrote-Replaced}
use azure_functions_langgrap.Tables.Requests.{Turn, Result, reset_patch}
use azure_functions_langgrap.Tables.Store.Abstraction.{
  AreMoves, Others, still, moved_between, Others-Follows,
}
use azure_functions_langgrap.Tables.Store.Sweep.{
  is_old, counted_on, swept, sweep_old, sweep_row, sweep_rows, reset_stale_locks,
}

module _ (T : TableClient) (w : View T) (now older : ℕ) (status : ThreadStatus) where
  -- One row that was busy and old until the write got the status and the time, and nothing else.
  pub record Resets (s s' : T.State) : Type 0 where
    pub key : String
    pub clock : ℕ
    pub old : Entity
    pub replaced : Replaced T w key merges (reset_patch key clock status) old s s'
    pub was_busy : lookup "status" old ≡ some (text "busy")
    pub was_old : is_old now older (lookup "updated_at" old) ≡ true

  -- The row of the reset is as it was in the state `q`.
  abbrev pub IsUnchanged : (q : T.State) {s s' : T.State} → Resets s s' → Type 0
  IsUnchanged q {s} r = (w.find q r.key ≡ some r.old) × (w.version q r.key ≡ w.version s r.key)

  -- Moves of other callers in their turns, and a number of resets of rows that are as the query in
  -- the state `q` saw them; nothing else happens to the table.
  pub data Sweeps (turns : ℕ → Turn T.State) (q : T.State) : T.State → T.State → ℕ → Type 0 where
    ends : {s : T.State} → Sweeps turns q s s 0
    others :
        {s u s' : T.State} {n : ℕ}
        → Others turns s u
        → Sweeps turns q u s' n
        → Sweeps turns q s s' n
    resets :
        {s u s' : T.State} {n : ℕ} (r : Resets s u)
        → IsUnchanged q r
        → Sweeps turns q u s' n
        → Sweeps turns q s s' (suc n)

  module _ (table : IsTable T w) (turns : ℕ → Turn T.State) (moves : AreMoves T w turns) where
    -- A row of the query that is written is still the row that the query saw.
    swept-Resets :
        (q s s' : T.State) (row : Row) (tag : String) (clock : ℕ)
        → w.Follows q s
        → (l : IsListed T w q "busy" row) → is_old now older (lookup "updated_at" row.entity) ≡ true
        → cas_etag row ≡ some tag
        → T.update_entity s merges (reset_patch l.key clock status) (some tag) ≡ (returns tt, s')
        → (r : Resets s s') × IsUnchanged q r
    unfolding lookup
    swept-Resets q s s' row tag clock later l aged tagged sent =
        let patch = reset_patch l.key clock status in
        let write = table.updated s s' l.key merges patch (some tag) refl sent in
        let current = l.current write.etag (tagged ∙ write.same_tag) in
        (
          record {
            key = l.key;
            clock = clock;
            old = l.whole;
            replaced =
                Wrote-Replaced T w l.key merges patch l.whole (some tag) s s' write
                  (table.same_version q s l.key write.etag later current write.current ∙ l.found);
            was_busy = l.has_status;
            was_old = ap (is_old now older) (sym l.updated_at) ∙ aged;
          },
          (l.found, current ∙ sym write.current),
        )

    -- What one pass of the loop has come to, from the moment `s` to `s'`.
    abbrev Passed : T.State → Bool → T.State → T.State → Type 0
    Passed q reset s s' =
        ((reset ≡ true)
          × (u : T.State) × Others turns s u
          × (r : Resets u s') × IsUnchanged q r
          × w.Follows u s')
        ⊎ ((reset ≡ false) × Others turns s s')

    swept-cases :
        (sent : Outcome {0, 0} TableError Unit × T.State) (reset : Bool) (s' : T.State)
        → swept T sent ≡ (returns reset, s')
        → ((reset ≡ true) × (sent ≡ (returns tt, s')))
          ⊎ ((reset ≡ false) × ((sent ≡ (raises modified, s')) ⊎ (sent ≡ (raises not_found, s'))))
    unfolding swept
    swept-cases (returns tt, u) reset s' h =
        inl (returns-injective reset true (sym (ap (λ p. p.0) h)), ap (λ p. (returns tt, p.1)) h)
    swept-cases (raises modified, u) reset s' h = inr (
      returns-injective reset false (sym (ap (λ p. p.0) h)),
      inl (ap (λ p. (raises modified, p.1)) h),
    )
    swept-cases (raises not_found, u) reset s' h = inr (
      returns-injective reset false (sym (ap (λ p. p.0) h)),
      inr (ap (λ p. (raises not_found, p.1)) h),
    )
    swept-cases (raises (limit_exceeded a b c), u) reset s' h = absurd (ground (arith, h))
    swept-cases (raises (type_error a), u) reset s' h = absurd (ground (arith, h))
    swept-cases (raises (value_error a), u) reset s' h = absurd (ground (arith, h))
    swept-cases (raises (key_error a), u) reset s' h = absurd (ground (arith, h))
    swept-cases (raises (bound_to a b), u) reset s' h = absurd (ground (arith, h))
    swept-cases (raises (release_error a), u) reset s' h = absurd (ground (arith, h))
    swept-cases (raises (service_error a), u) reset s' h = absurd (ground (arith, h))

    key_of_row :
        (q : T.State) (row : Row)
        → (l : IsListed T w q "busy" row)
        → property_at "RowKey" row.entity >>= as_key ≡ returns l.key
    unfolding as_key
    key_of_row q row l = ground (arith, l.row_key)

    sweep_row-Passed :
        (i : ℕ) (q s s' : T.State) (row : Row) (reset : Bool)
        → w.Follows q s
        → IsListed T w q "busy" row
        → sweep_row T (turns i) now older status row s ≡ (returns reset, s')
        → Passed q reset s s'
    unfolding sweep_row sweep_old
    sweep_row-Passed i q s s' row reset later l h =
        elim (Bool-cases (is_old now older (lookup "updated_at" row.entity))) [
          | inr recent ↦
              let stopped = rw (sweep_row, recent) at h in
              inr (
                returns-injective reset false (sym (ap (λ p. p.0) stopped)),
                subst (λ u. Others turns s u) (ap (λ p. p.1) stopped) still,
              )
          | inl aged ↦ elim (Option-cases (cas_etag row)) [
            | inl missing ↦
                let stopped = rw (sweep_row, aged, missing) at h in
                inr (
                  returns-injective reset false (sym (ap (λ p. p.0) stopped)),
                  subst (λ u. Others turns s u) (ap (λ p. p.1) stopped) still,
                )
            | inr (tag, tagged) ↦
                let turn = turns i in
                let u = turn.between s in
                let patch = reset_patch l.key turn.now status in
                elim (swept-cases (T.update_entity u merges patch (some tag)) reset s'
                  (rw (sweep_row, aged, tagged, sweep_old, key_of_row q row l) at h)) [
                    | inl (done, sent) ↦
                        let (r, same) =
                          swept-Resets q u s' row tag turn.now
                            (table.goes_on q s u later (moves i s).1) l aged tagged sent in
                        inl (
                          done,
                          u,
                          moved_between i still,
                          r,
                          same,
                          table.acts u s' merges patch (some tag) sent,
                        )
                    | inr (kept, inl lost) ↦ inr (
                      kept,
                      subst⁻¹ (λ v. Others turns s v) (table.lost u s' merges patch (some tag) lost)
                          (moved_between i still),
                    )
                    | inr (kept, inr gone) ↦ inr (
                      kept,
                      subst⁻¹ (λ v. Others turns s v) (table.gone u s' merges patch (some tag) gone)
                          (moved_between i still),
                    )
                  ]
          ]
        ]

    counted_on-returns :
        (count n : ℕ) (rest : ℕ → T.State → Result T ℕ) (result : Result T Bool) (s' : T.State)
        → counted_on T count rest result ≡ (returns n, s')
        → (reset : Bool) × (u : T.State) × (result ≡ (returns reset, u))
          × (rest (count + to_nat reset) u ≡ (returns n, s'))
    unfolding counted_on
    counted_on-returns count n rest (raises x, u) s' h = absurd (ground (arith, h))
    counted_on-returns count n rest (returns reset, u) s' h = (reset, u, refl, h)

    sweep_rows-Sweeps :
        (q s s' : T.State) (i : ℕ) (rows : List Row) (count n : ℕ)
        → w.Follows q s
        → AreListed T w q "busy" rows
        → sweep_rows T turns now older status i rows count s ≡ (returns n, s')
        → (resets : ℕ) × (n ≡ count + resets) × Sweeps turns q s s' resets
    unfolding sweep_rows
    sweep_rows-Sweeps q s s' i [] count n later l h = (
      0,
      omega (arith, returns-injective count n (ap (λ p. p.0) h)),
      others (subst (λ u. Others turns s u) (ap (λ p. p.1) h) still) ends,
    )
    sweep_rows-Sweeps q s s' i (row ∷ rows) count n later l h =
        let (reset, u, same, ended) =
          counted_on-returns count n (sweep_rows T turns now older status (suc i) rows)
            (sweep_row T (turns i) now older status row s) s' h in
        elim (sweep_row-Passed i q s u row reset later l.0 same) [
          | inl (done, v, before, wrote, same, after) ↦
              let (k, total, more) =
                sweep_rows-Sweeps q u s' (suc i) rows (count + to_nat reset) n
                  (table.goes_on q s u later
                    (table.goes_on s v u (Others-Follows T w table turns moves before) after))
                  l.1 ended in
              (suc k, omega (arith, total, ap to_nat done), others before (resets wrote same more))
          | inr (kept, before) ↦
              let (k, total, more) =
                sweep_rows-Sweeps q u s' (suc i) rows (count + to_nat reset) n
                  (table.goes_on q s u later (Others-Follows T w table turns moves before)) l.1
                  ended in
              (k, omega (arith, total, ap to_nat kept), others before more)
        ]

    -- Whatever other callers do in between, a call of `reset_stale_locks` that returns a number has
    -- made exactly that many writes, and all else that happened to the table was done by the other
    -- callers. Each write was to a row that was busy and older than the limit, with the version and
    -- the content that the query had seen, so that a row that another caller changed since is left;
    -- it set the given status and the time and nothing else. The query is taken to list busy rows
    -- with their ETags.
    pub reset_stale_locks-Sweeps :
        IsQuery T w
        → (s s' : T.State) (limit : ℤ) (n : ℕ) → to_ℕ limit ≡ older
        → reset_stale_locks T turns now limit status s ≡ (returns n, s')
        → Sweeps turns s s s' n
    unfolding reset_stale_locks
    reset_stale_locks-Sweeps query s s' limit n same h = elim (Bool-cases (is_negative limit)) [
      | inl negative ↦ absurd (ground (arith, negative, h))
      | inr valid ↦ elim (Bool-cases (not (status == idle || status == error))) [
        | inl refused ↦ absurd (ground (arith, valid, refused, h))
        | inr terminal ↦ elim (Outcome-cases (T.query_entities s (some "busy") (some names))) [
          | inr (x, failed) ↦ absurd (ground (arith, valid, terminal, failed, h))
          | inl (rows, listed) ↦
              let (k, total, swept_rows) =
                sweep_rows-Sweeps s s s' 0 rows 0 n (table.stays s)
                  (query s "busy" names rows listed)
                  (rw same at rw (reset_stale_locks, valid, terminal, listed) at h) in
              subst (λ m. Sweeps turns s s s' m) (omega (arith, total)) swept_rows
        ]
      ]
    ]
      where
        names : List String
        names = "RowKey" ∷ "updated_at" ∷ []
