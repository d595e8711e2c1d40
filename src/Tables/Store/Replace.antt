-- ===== src/Tables/Store/Replace.antt =====
-- The replacement of a row, which `update` and `release_run_lock` of stores/azure_table.py share.
use azure_functions_langgrap.Base.{
  ℕ, String, Option, some, string_eq, ◌≡◌, refl, ◌∙◌, ap, sym, arith, Outcome, returns,
  Outcome-cases, returns-injective, inl, inr,
}
use mathlib.Core.Path.{subst⁻¹}
use azure_functions_langgrap.Base.Dict.{lookup, insert}
use azure_functions_langgrap.Platform.Threads.{Thread}
use azure_functions_langgrap.Platform.Stores.{Store}
use azure_functions_langgrap.Tables.{Entity, text}
use azure_functions_langgrap.Tables.Json.{validate_entity, property_bytes}
use azure_functions_langgrap.Tables.Threads.{Codecs, entity_to_thread}
use azure_functions_langgrap.Tables.Threads.Decodes.{Decodes, entity_to_thread-Decodes}
use azure_functions_langgrap.Tables.Service.{TableClient, View, IsTable, Row, replaces}
use azure_functions_langgrap.Tables.Service.Etags.{Carries, update-Replaced}
use azure_functions_langgrap.Tables.Requests.{Turn, Result}
use azure_functions_langgrap.Tables.Store.{replace_row}
use azure_functions_langgrap.Tables.Store.Patches.{Stores}
use azure_functions_langgrap.Tables.Store.Abstraction.{
  AreMoves, Others, moved_between, Commits-Replaced, Commits, after_write-cases,
}

module _ {V : Type 0} (codecs : Codecs V) (T : TableClient) (w : View T) (table : IsTable T w)
    (turns : ℕ → Turn T.State) (moves : AreMoves T w turns) (id : String) where
  -- A replacement that returns: the write went through on the thread that was read, or was lost and
  -- a later attempt returned.
  pub replace_row-Commits :
      {E C : Type 0} (step : ℕ → Store V → Outcome E (Thread V) × Store V) (i : ℕ)
      (retry : T.State → Result T (Thread V)) (s r s' : T.State) (row : Row) (tag : Option String)
      (replacement : Entity) (t t' result : Thread V)
      → Others turns s r
      → T.get_entity r id ≡ returns row
      → Carries row tag
      → Decodes codecs row.entity t
      → lookup "RowKey" replacement ≡ lookup "RowKey" row.entity
      → (validate_entity property_bytes replacement ≡ returns tt
          → (new : Entity) → Stores new replacement
          → lookup "RowKey" new ≡ some (text t.thread_id)
          → Decodes codecs new t')
      → ((m : Store V) → lookup id m ≡ some t → step i m ≡ (returns t', insert id t' m))
      → ((u : T.State) → Others turns s u → retry u ≡ (returns result, s') → C)
      → (Commits codecs T w turns id step (returns result) s s' → C)
      → replace_row codecs T id (turns i) retry replacement tag r ≡ (returns result, s')
      → C
  unfolding replace_row
  replace_row-Commits step i retry s r s' row tag replacement t t' result later read carries d
        same_key after effect again done h =
      elim (Outcome-cases (validate_entity property_bytes replacement)) [
        | inr (x, failed) ↦ absurd (ground (arith, failed, h))
        | inl (fits, valid) ↦
            elim (after_write-cases T id (entity_to_thread codecs replacement) retry
              (T.update_entity ((turns i).between r) replaces replacement tag) (returns result) s'
              (rw (replace_row, valid) at h)) [
                | inl (sent, same) ↦
                    let key =
                      same_key
                      ∙ table.keyed r id row.entity (table.found-get_entity r id row read) in
                    let replaced =
                      update-Replaced T w table r ((turns i).between r) s' id replaces replacement
                        row tag read carries (moves i r).1 key sent in
                    let returned =
                      same
                      ∙ entity_to_thread-Decodes codecs replacement t'
                          (after valid replacement (λ name own. refl) (same_key ∙ d.thread_id)) in
                    done (
                      Commits-Replaced codecs T w table turns id step (returns result) i s
                        ((turns i).between r) s' replaces replacement row.entity t t'
                        (moved_between i later) replaced d (after valid replaced.new)
                        (λ m there.
                          effect m there
                          ∙ ap (λ (x : Thread V). (returns x, insert id t' m))
                              (returns-injective t' result (sym returned))))
                | inr (inl (u, lost, more)) ↦
                    again u
                      (subst⁻¹ (λ x. Others turns s x)
                        (table.lost ((turns i).between r) u replaces replacement tag lost)
                        (moved_between i later))
                      more
                | inr (inr (x, failed, same)) ↦ absurd (ground (arith, same))
              ]
      ]
