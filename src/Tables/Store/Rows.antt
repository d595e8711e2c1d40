-- ===== src/Tables/Store/Rows.antt =====
-- `create`, `get` and `delete` of stores/azure_table.py against those of `InMemoryThreadStore`.
use azure_functions_langgrap.Base.{
  ℕ, String, Option, none, some, ◌==◌, string_eq, ◌≡◌, refl, ◌∙◌, ap, sym, arith, Outcome, returns,
  raises, Outcome-cases, Bool-cases, returns-injective, inl, inr, ==_iff,
}
use mathlib.Core.Path.{subst⁻¹}
use azure_functions_langgrap.Base.Dict.{Dict, lookup, insert, remove, lookup-insert, lookup-remove}
use azure_functions_langgrap.Platform.Threads.{Thread}
use azure_functions_langgrap.Platform.Stores.{Store, new_thread}
use azure_functions_langgrap.Platform.Stores.{
  create as create_in_memory, delete as delete_in_memory,
}
use azure_functions_langgrap.Tables.{
  Entity, TableError, limit_exceeded, type_error, value_error, key_error, bound_to, release_error,
  modified, not_found, service_error,
}
use azure_functions_langgrap.Tables.Json.{validate_entity, property_bytes}
use azure_functions_langgrap.Tables.Threads.{Codecs, entity_to_thread, thread_to_entity}
use azure_functions_langgrap.Tables.Threads.Decodes.{entity_to_thread-Decodes}
use azure_functions_langgrap.Tables.Service.{TableClient, View, IsTable, Row}
use azure_functions_langgrap.Tables.Store.{create, get, delete, created_at, deleted_at}
use azure_functions_langgrap.Tables.Store.Abstraction.{Shows, thread_of, thread_of-Decodes}
use azure_functions_langgrap.Tables.Store.Entities.{thread_to_entity-Decodes}
use azure_functions_langgrap.Tables.Store.Writes.{AreLossless, Decodes-Stores}

delete_in_memory_there :
    {V : Type 0} (id : String) (t : Thread V) (m : Store V)
    → lookup id m ≡ some t
    → delete_in_memory id m ≡ (returns tt, remove id m)
unfolding delete_in_memory
delete_in_memory_there id t m there = rw there refl

create_in_memory_fresh :
    {V : Type 0} (now : ℕ) (id : String) (metadata : Option (Dict String V)) (m : Store V)
    → lookup id m ≡ none
    → create_in_memory now id metadata m
      ≡ (returns (new_thread now id metadata), insert id (new_thread now id metadata) m)
unfolding create_in_memory
create_in_memory_fresh now id metadata m fresh = rw fresh refl

module _ {V : Type 0} (codecs : Codecs V) (T : TableClient) (w : View T) (table : IsTable T w) where
  -- A row that was read is in the dictionary.
  lookup-Shows :
      (s : T.State) (k : String) (row : Row) (t : Thread V) (m : Store V)
      → T.get_entity s k ≡ returns row
      → entity_to_thread codecs row.entity ≡ returns t
      → Shows codecs T w s m
      → lookup k m ≡ some t
  unfolding thread_of
  lookup-Shows s k row t m read decoded shown =
      shown k ∙ rw (table.found-get_entity s k row read, thread_of, decoded) refl

  -- What `get` returns is what the dictionary holds: a thread that is there, or `None` for one that
  -- is missing.
  pub get-Shows :
      (id : String) (s : T.State) (found : Option (Thread V)) (m : Store V)
      → get codecs T id s ≡ returns found
      → Shows codecs T w s m
      → lookup id m ≡ found
  unfolding get thread_of
  get-Shows id s found m h shown = elim (Outcome-cases (T.get_entity s id)) [
    | inl (row, read) ↦ elim (Outcome-cases (entity_to_thread codecs row.entity)) [
      | inr (x, failed) ↦ absurd (ground (arith, read, failed, h))
      | inl (t, decoded) ↦
          lookup-Shows s id row t m read decoded shown
          ∙ returns-injective (some t) found (rw (get, read, decoded) at h)
    ]
    | inr (x, failed) ↦ missed x failed
  ]
    where
      missed : (x : TableError) → T.get_entity s id ≡ raises x → lookup id m ≡ found
      missed not_found failed =
          shown id
          ∙ rw (table.missing-get_entity s id failed) refl
          ∙ returns-injective none found (rw (get, failed) at h)
      missed modified failed = absurd (ground (arith, failed, h))
      missed (limit_exceeded a b c) failed = absurd (ground (arith, failed, h))
      missed (type_error a) failed = absurd (ground (arith, failed, h))
      missed (value_error a) failed = absurd (ground (arith, failed, h))
      missed (key_error a) failed = absurd (ground (arith, failed, h))
      missed (bound_to a b) failed = absurd (ground (arith, failed, h))
      missed (release_error a) failed = absurd (ground (arith, failed, h))
      missed (service_error a) failed = absurd (ground (arith, failed, h))

  deleted_at-returns :
      (id : String) (sent : Outcome {0, 0} TableError Unit × T.State) (s' : T.State)
      → deleted_at codecs T id sent ≡ (returns tt, s')
      → sent ≡ (returns tt, s')
  unfolding deleted_at
  deleted_at-returns id (returns tt, u) s' h = ap (λ p. (returns tt, p.1)) h
  deleted_at-returns id (raises x, u) s' h = absurd (ground (arith, h))

  -- A `delete` of a row that reads as a thread makes the change of the in-memory store if it
  -- returns: the row is gone, and every other thread is left.
  pub delete-Shows :
      (id : String) (s s' : T.State) (m : Store V)
      → ((e : Entity)
          → w.find s id ≡ some e
          → (t : Thread V) × (entity_to_thread codecs e ≡ returns t))
      → delete codecs T id s ≡ (returns tt, s')
      → Shows codecs T w s m
      → ((delete_in_memory id m).0 ≡ returns tt) × Shows codecs T w s' (delete_in_memory id m).1
  unfolding delete thread_of
  delete-Shows id s s' m legible h shown =
      let gone = table.deleted s s' id (deleted_at-returns id (T.delete_entity s id) s' h) in
      let (t, decoded) = legible gone.old gone.found in
      let same = delete_in_memory_there id t m (there gone.old t gone.found decoded) in
      (
        ap (λ p. p.0) same,
        subst⁻¹ (λ p. Shows codecs T w s' p.1) same
            (λ j. elim (Bool-cases (id == j)) [
              | inl same ↦
                  lookup-remove id j m
                  ∙ rw same (
                      ap (thread_of codecs) (sym gone.missing)
                      ∙ ap (λ (i : String). thread_of codecs (w.find s' i)) ((==_iff id j).0 same))
              | inr other ↦
                  lookup-remove id j m
                  ∙ rw other (shown j ∙ ap (thread_of codecs) (sym (gone.others j other)))
            ]),
      )
    where
      there :
          (e : Entity) (t : Thread V)
          → w.find s id ≡ some e
          → entity_to_thread codecs e ≡ returns t
          → lookup id m ≡ some t
      there e t found decoded = shown id ∙ rw (found, thread_of, decoded) refl

  created_at-returns :
      (e : Entity) (sent : Outcome {0, 0} TableError Unit × T.State) (t : Thread V) (s' : T.State)
      → created_at codecs T e sent ≡ (returns t, s')
      → (sent ≡ (returns tt, s')) × (entity_to_thread codecs e ≡ returns t)
  unfolding created_at
  created_at-returns e (returns tt, u) t s' h = (ap (λ p. (returns tt, p.1)) h, ap (λ p. p.0) h)
  created_at-returns e (raises x, u) t s' h = absurd (ground (arith, h))

  -- A `create` that returns makes the change of the in-memory store and returns what that returns:
  -- the new thread is idle, with the metadata as given and the clock in both times, under an id
  -- that was not there, and every other thread is left. The JSON is taken to be lossless.
  pub create-Shows :
      AreLossless codecs
      → (now : ℕ) (id : String) (metadata : Option (Dict String V)) (s s' : T.State) (t : Thread V)
        (m : Store V)
      → create codecs T now id metadata s ≡ (returns t, s')
      → Shows codecs T w s m
      → ((create_in_memory now id metadata m).0 ≡ returns t)
        × Shows codecs T w s' (create_in_memory now id metadata m).1
  unfolding create thread_of
  create-Shows lossless now id metadata s s' t m h shown =
      elim (Outcome-cases (thread_to_entity codecs thread)) [
        | inr (x, failed) ↦ absurd (ground (arith, failed, h))
        | inl (e, wrote) ↦ elim (Outcome-cases (validate_entity property_bytes e)) [
          | inr (x, failed) ↦ absurd (ground (arith, wrote, failed, h))
          | inl (fits, valid) ↦
              let d = thread_to_entity-Decodes codecs lossless thread e wrote valid in
              let (sent, returned) =
                created_at-returns e (T.create_entity s e) t s' (rw (create, wrote, valid) at h) in
              let added = table.created s s' id e d.thread_id sent in
              let fresh = shown id ∙ ap (thread_of codecs) added.fresh in
              let same = create_in_memory_fresh now id metadata m fresh in
              (
                ap (λ p. p.0) same
                    ∙ ap (λ (x : Thread V). returns x)
                        (returns-injective thread t
                          (sym (entity_to_thread-Decodes codecs e thread d) ∙ returned)),
                subst⁻¹ (λ p. Shows codecs T w s' p.1) same
                    (λ j. elim (Bool-cases (id == j)) [
                      | inl here ↦
                          lookup-insert id j thread m
                          ∙ rw here (
                              sym (
                                thread_of-Decodes codecs T w added.new thread (
                                  Decodes-Stores codecs e added.new thread d added.content
                                    (table.keyed s' id added.new added.stored)))
                              ∙ ap (thread_of codecs) (sym added.stored)
                              ∙ ap (λ (i : String). thread_of codecs (w.find s' i))
                                  ((==_iff id j).0 here))
                      | inr other ↦
                          lookup-insert id j thread m
                          ∙ rw other (shown j ∙ ap (thread_of codecs) (sym (added.others j other)))
                    ]),
              )
        ]
      ]
    where
      thread : Thread V
      thread = new_thread now id metadata
