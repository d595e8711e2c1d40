-- ===== src/Tables/Store/Abstraction.antt =====
-- The table as the dictionary of threads that `InMemoryThreadStore` keeps: what one conditional
-- write of stores/azure_table.py does to it.
use mathlib.Core.Path.{subst}
use azure_functions_langgrap.Base.{
  ℕ, suc, String, true, Option, none, some, ◌==◌, string_eq, ◌≡◌, refl, ◌∙◌, ap, sym, arith,
  Outcome, returns, raises, Bool-cases, Option-cases, Outcome-cases, inl, inr, ◌⊎◌, ==-refl, [],
  ◌∷◌,
}
use azure_functions_langgrap.Base.Dict.{lookup, insert}
use azure_functions_langgrap.Platform.Threads.{Thread}
use azure_functions_langgrap.Platform.Stores.{Store}
use azure_functions_langgrap.Tables.{
  text, Entity, TableError, limit_exceeded, type_error, value_error, key_error, bound_to,
  release_error, modified, not_found, service_error,
}
use azure_functions_langgrap.Tables.Threads.{Codecs, entity_to_thread}
use azure_functions_langgrap.Tables.Threads.Decodes.{Decodes, entity_to_thread-Decodes}
use azure_functions_langgrap.Tables.Service.{TableClient, View, IsTable, Mode, Row, written}
use azure_functions_langgrap.Tables.Service.Etags.{Replaced}
use azure_functions_langgrap.Tables.Requests.{Turn, after_write, or_key_error}
use azure_functions_langgrap.Tables.Store.Patches.{Stores}

-- What other callers do in the turns is what they may do.
abbrev pub AreMoves : (T : TableClient) → View T → (ℕ → Turn T.State) → Type 0
AreMoves T w turns =
    (i : ℕ) (s : T.State) → w.Follows s ((turns i).before s) × w.Follows s ((turns i).between s)

-- The states that the moves of other callers in the turns lead to, from `s`.
pub data Others {S : Type 0} (turns : ℕ → Turn S) (s : S) : S → Type 0 where
  still : Others turns s s
  moved_before : {u : S} (i : ℕ) → Others turns s u → Others turns s ((turns i).before u)
  moved_between : {u : S} (i : ℕ) → Others turns s u → Others turns s ((turns i).between u)

-- Attempts whose requests to write a row were all refused: of the state, there are only the moves of
-- the other callers.
pub data Loses (T : TableClient) (turns : ℕ → Turn T.State) (id : String)
    : ℕ → T.State → T.State → Type 0 where
  over : {s : T.State} → Loses T turns id 0 s s
  loses :
      {n : ℕ} {s s' : T.State} (mode : Mode) (patch : Entity) (tag : Option String)
      → lookup "RowKey" patch ≡ some (text id)
      → T.update_entity ((turns n).between ((turns n).before s)) mode patch tag
        ≡ (raises modified, (turns n).between ((turns n).before s))
      → Loses T turns id n ((turns n).between ((turns n).before s)) s'
      → Loses T turns id (suc n) s s'

-- A row that reads as a thread.
unfoldable pub thread_of : {V : Type 0} → Codecs V → Option Entity → Option (Thread V)
thread_of codecs none = none
thread_of codecs (some e) = elim (entity_to_thread codecs e) [
  | raises x ↦ none
  | returns t ↦ some t
]

abbrev first_of : {V : Type 0} → Thread V → Store V → Thread V
first_of default [] = default
first_of default ((id, t) ∷ rest) = t

module _ {V : Type 0} (codecs : Codecs V) (T : TableClient) (w : View T) where
  -- The dictionary has the threads that the rows of the table read as.
  abbrev pub Shows : T.State → Store V → Type 0
  Shows s m = (k : String) → lookup k m ≡ thread_of codecs (w.find s k)

  pub thread_of-Decodes :
      (e : Entity) (t : Thread V) → Decodes codecs e t → thread_of codecs (some e) ≡ some t
  unfolding thread_of
  thread_of-Decodes e t d = rw (thread_of, entity_to_thread-Decodes codecs e t d) refl

  -- A thread's id is its row key.
  pub row_key :
      IsTable T w
      → (s : T.State) (k : String) (e : Entity) (t : Thread V) → w.find s k ≡ some e
      → Decodes codecs e t
      → k ≡ t.thread_id
  row_key table s k e t found d = ground (arith, table.keyed s k e found, d.thread_id)

  -- The part of the dictionary that one thread is.
  unfoldable pub thread_store : String → T.State → Store V
  thread_store id s = elim (thread_of codecs (w.find s id)) [ none ↦ [] | some t ↦ (id, t) ∷ [] ]

  -- The call took effect in one step, at a moment to which only other callers had led from `s`: on
  -- its thread, the step of the in-memory store; no other row was changed by it.
  pub record Commits {A : Type 0} (turns : ℕ → Turn T.State) (id : String)
      (step : ℕ → Store V → A × Store V) (result : A) (s s' : T.State) : Type 0 where
    pub turn : ℕ
    pub at : T.State
    pub later : Others turns s at
    pub effect : step turn (thread_store id at) ≡ (result, thread_store id s')
    pub others : (j : String) → (id == j ≡ true) ⊎ (w.find s' j ≡ w.find at j)

  pub thread_store-found :
      (s : T.State) (id : String) (e : Entity) (t : Thread V)
      → w.find s id ≡ some e
      → thread_of codecs (some e) ≡ some t
      → thread_store id s ≡ (id, t) ∷ []
  unfolding thread_store
  thread_store-found s id e t found reads = rw (thread_store, found, reads) refl

  -- The thread is there only as what a row reads as.
  pub found-thread_store :
      (s : T.State) (id : String) (t : Thread V)
      → thread_store id s ≡ (id, t) ∷ []
      → (e : Entity) × (w.find s id ≡ some e) × (entity_to_thread codecs e ≡ returns t)
  unfolding thread_store thread_of
  found-thread_store s id t h = elim (Option-cases (w.find s id)) [
    | inl missing ↦ absurd (ground (arith, missing, h))
    | inr (e, there) ↦ elim (Outcome-cases (entity_to_thread codecs e)) [
      | inr (x, failed) ↦ absurd (ground (arith, there, failed, h))
      | inl (u, decoded) ↦ (
        e,
        there,
        decoded
            ∙ ap (λ (m : Store V). returns (first_of u m))
                (rw (thread_store, there, thread_of, decoded) at h),
      )
    ]
  ]

  -- One row was replaced, which the step says of the thread.
  pub Commits-Replaced :
      IsTable T w
      → {A : Type 0} (turns : ℕ → Turn T.State) (id : String) (step : ℕ → Store V → A × Store V)
        (result : A) (turn : ℕ) (s at s' : T.State) (mode : Mode) (patch old : Entity)
        (t t' : Thread V)
      → Others turns s at
      → (r : Replaced T w id mode patch old at s') → Decodes codecs old t
      → (Stores r.new (written mode old patch)
          → lookup "RowKey" r.new ≡ some (text t.thread_id)
          → Decodes codecs r.new t')
      → ((m : Store V) → lookup id m ≡ some t → step turn m ≡ (result, insert id t' m))
      → Commits turns id step result s s'
  unfolding lookup insert
  Commits-Replaced table turns id step result turn s at s' mode patch old t t' later r d after
        does =
      record {
        turn = turn;
        at = at;
        later = later;
        effect =
            rw
              (
                thread_store-found at id old t r.found (thread_of-Decodes old t d),
                thread_store-found s' id r.new t' r.stored
                    (thread_of-Decodes r.new t' (after r.content key)),
                does ((id, t) ∷ []) (rw (==-refl id) refl),
                ==-refl id,
              )
              refl;
        others = λ j. elim (Bool-cases (id == j)) [
          | inl same ↦ inl same
          | inr apart ↦ inr (r.others j apart)
        ];
      }
    where
      key : lookup "RowKey" r.new ≡ some (text t.thread_id)
      key =
          table.keyed s' id r.new r.stored
          ∙ ap (λ (i : String). some (text i)) (row_key table at id old t r.found d)

  -- A call that wrote nothing took effect at its read.
  pub Commits-read :
      IsTable T w
      → {A : Type 0} (turns : ℕ → Turn T.State) (id : String) (step : ℕ → Store V → A × Store V)
        (result : A) (turn : ℕ) (s r s' : T.State) (row : Row) (t : Thread V)
      → Others turns s r
      → r ≡ s'
      → T.get_entity r id ≡ returns row
      → entity_to_thread codecs row.entity ≡ returns t
      → ((m : Store V) → lookup id m ≡ some t → step turn m ≡ (result, m))
      → Commits turns id step result s s'
  unfolding thread_of lookup
  Commits-read table turns id step result turn s r s' row t later same read decoded does = record {
    turn = turn;
    at = r;
    later = later;
    effect =
        subst (λ u. step turn (thread_store id r) ≡ (result, thread_store id u)) same
          (rw
            (
              thread_store-found r id row.entity t (table.found-get_entity r id row read)
                  (rw (thread_of, decoded) refl),
              does ((id, t) ∷ []) (rw (==-refl id) refl),
            )
            refl);
    others = λ j. inr (ap (λ (u : T.State). w.find u j) (sym same));
  }

pub Others-Follows :
    (T : TableClient) (w : View T)
    → IsTable T w
    → (turns : ℕ → Turn T.State) → AreMoves T w turns
    → {s u : T.State} → Others turns s u
    → w.Follows s u
Others-Follows T w table turns moves {s} still = table.stays s
Others-Follows T w table turns moves {s} (moved_before {u} i more) =
    table.goes_on s u ((turns i).before u) (Others-Follows T w table turns moves more) (moves i u).0
Others-Follows T w table turns moves {s} (moved_between {u} i more) =
    table.goes_on s u ((turns i).between u) (Others-Follows T w table turns moves more)
      (moves i u).1

-- Whatever other callers do, the rows of the thread read as threads.
abbrev pub AreLegible :
    {V : Type 0}
    → Codecs V
    → (T : TableClient) → View T
    → (ℕ → Turn T.State)
    → String
    → T.State
    → Type 0
AreLegible {V} codecs T w turns id s =
    (u : T.State) (e : Entity)
    → Others turns s u
    → w.find u id ≡ some e
    → (t : Thread V) × (entity_to_thread codecs e ≡ returns t)

-- What followed a request to write.
module _ {A : Type 0} (T : TableClient) (id : String) (result : Outcome TableError A)
    (retry : T.State → Outcome TableError A × T.State) where
  abbrev pub Followed :
      Outcome {0, 0} TableError Unit × T.State → Outcome TableError A → T.State → Type 0
  Followed sent v s' =
      ((sent ≡ (returns tt, s')) × (v ≡ result))
      ⊎ (((u : T.State) × (sent ≡ (raises modified, u)) × (retry u ≡ (v, s')))
          ⊎ ((x : TableError) × (sent ≡ (raises x, s')) × (v ≡ raises (or_key_error id x))))

  -- It was written, or it lost the race and the call goes on, or it failed.
  pub after_write-cases :
      (sent : Outcome {0, 0} TableError Unit × T.State) (v : Outcome TableError A) (s' : T.State)
      → after_write T id result retry sent ≡ (v, s')
      → Followed sent v s'
  unfolding after_write
  after_write-cases (returns tt, s) v s' h =
      inl (ap (λ p. (returns tt, p.1)) h, sym (ap (λ p. p.0) h))
  after_write-cases (raises modified, s) v s' h = inr (inl (s, refl, h))
  after_write-cases (raises not_found, s) v s' h =
      inr (inr (not_found, ap (λ p. (raises not_found, p.1)) h, sym (ap (λ p. p.0) h)))
  after_write-cases (raises (limit_exceeded d n l), s) v s' h = inr (
      inr (
        limit_exceeded d n l,
        ap (λ p. (raises (limit_exceeded d n l), p.1)) h,
        sym (ap (λ p. p.0) h),
      ))
  after_write-cases (raises (type_error m), s) v s' h =
      inr (inr (type_error m, ap (λ p. (raises (type_error m), p.1)) h, sym (ap (λ p. p.0) h)))
  after_write-cases (raises (value_error m), s) v s' h =
      inr (inr (value_error m, ap (λ p. (raises (value_error m), p.1)) h, sym (ap (λ p. p.0) h)))
  after_write-cases (raises (key_error m), s) v s' h =
      inr (inr (key_error m, ap (λ p. (raises (key_error m), p.1)) h, sym (ap (λ p. p.0) h)))
  after_write-cases (raises (bound_to a b), s) v s' h =
      inr (inr (bound_to a b, ap (λ p. (raises (bound_to a b), p.1)) h, sym (ap (λ p. p.0) h)))
  after_write-cases (raises (release_error m), s) v s' h =
      inr
        (inr (release_error m, ap (λ p. (raises (release_error m), p.1)) h, sym (ap (λ p. p.0) h)))
  after_write-cases (raises (service_error m), s) v s' h =
      inr
        (inr (service_error m, ap (λ p. (raises (service_error m), p.1)) h, sym (ap (λ p. p.0) h)))
