-- ===== src/Tables/Service/Etags.antt =====
-- A conditional write after a read, in the methods of stores/azure_table.py: it succeeds only on
-- the entity that was read, whatever other callers did in between.
use mathlib.Core.Path.{subst}
use azure_functions_langgrap.Base.{
  String, false, Option, none, some, or_else, ◌==◌, string_eq, ◌≡◌, sym, ◌∙◌, returns, ap, ◌⊎◌,
  Bool-cases, inl, inr,
}
use azure_functions_langgrap.Base.Dict.{lookup}
use azure_functions_langgrap.Tables.{text, Entity}
use azure_functions_langgrap.Tables.Service.{
  TableClient, View, IsTable, Row, Mode, Wrote, written, is_reserved, cas_of, renewal_of, update_of,
  cas_etag, renewal_etag, update_etag, entity_etag,
}

-- The row held `old` at the write and holds what the patch makes of it; nothing else changed.
pub record Replaced (T : TableClient) (w : View T) (k : String) (mode : Mode) (patch old : Entity)
    (s s' : T.State) : Type 0 where
  pub found : w.find s k ≡ some old
  pub new : Entity
  pub stored : w.find s' k ≡ some new
  pub content :
      (name : String)
      → is_reserved name ≡ false
      → lookup name new ≡ lookup name (written mode old patch)
  pub others : (j : String) → k == j ≡ false → w.find s' j ≡ w.find s j

-- What is found is an ETag that the row carries.
abbrev pub Carries : Row → Option String → Type 0
Carries row found =
    (tag : String)
    → found ≡ some tag
    → (row.metadata ≡ some (some tag)) ⊎ (entity_etag row ≡ some tag)

cas_of-carries :
    (m : Option (Option String)) (own : Option String) (tag : String)
    → cas_of m own ≡ some tag
    → (m ≡ some (some tag)) ⊎ (own ≡ some tag)
cas_of-carries (some (some t)) own tag h = inl (ap (λ o. some o) h)
cas_of-carries (some none) own tag h = inr h
cas_of-carries none own tag h = inr h

renewal_of-carries :
    (m : Option (Option String)) (own : Option String) (tag : String)
    → renewal_of m own ≡ some tag
    → (m ≡ some (some tag)) ⊎ (own ≡ some tag)
renewal_of-carries (some found) own tag h = inl (ap (λ o. some o) h)
renewal_of-carries none own tag h = inr h

update_of-carries :
    (m : Option (Option String)) (own : Option String) (tag : String)
    → update_of m own ≡ some tag
    → (m ≡ some (some tag)) ⊎ (own ≡ some tag)
update_of-carries (some (some t)) own tag h = elim (Bool-cases (t == "")) [
  | inl empty ↦ inr (rw empty at h)
  | inr filled ↦ inl (ap (λ o. some o) (rw filled at h))
]
update_of-carries (some none) own tag h = inr h
update_of-carries none own tag h = inr h

pub cas_etag-Carries : (row : Row) → Carries row (cas_etag row)
unfolding cas_etag
cas_etag-Carries row = cas_of-carries row.metadata (entity_etag row)

pub renewal_etag-Carries : (row : Row) → Carries row (renewal_etag row)
unfolding renewal_etag
renewal_etag-Carries row = renewal_of-carries row.metadata (entity_etag row)

pub update_etag-Carries : (row : Row) → Carries row (update_etag row)
unfolding update_etag
update_etag-Carries row = update_of-carries row.metadata (entity_etag row)

pub some-injective : (d e : Entity) → some d ≡ some e → d ≡ e
some-injective d e h = ap (λ o. or_else o d) h

-- A write on an entity that is known.
pub Wrote-Replaced :
    (T : TableClient) (w : View T) (k : String) (mode : Mode) (patch old : Entity)
    (tag : Option String) (s s' : T.State)
    → Wrote T w k mode patch tag s s'
    → w.find s k ≡ some old
    → Replaced T w k mode patch old s s'
Wrote-Replaced T w k mode patch old tag s s' write found = record {
  found = found;
  new = write.new;
  stored = write.stored;
  content =
      subst
        (λ e.
          (name : String)
          → is_reserved name ≡ false
          → lookup name write.new ≡ lookup name (written mode e patch))
        (some-injective _ _ (sym write.found ∙ found)) write.content;
  others = write.others;
}

module _ (T : TableClient) (w : View T) (table : IsTable T w) where
  etag_current :
      (s : T.State) (k tag : String) (row : Row)
      → T.get_entity s k ≡ returns row
      → (row.metadata ≡ some (some tag)) ⊎ (entity_etag row ≡ some tag)
      → w.version s k ≡ some tag
  etag_current s k tag row read (inl tagged) = table.tagged_metadata s k tag row read tagged
  etag_current s k tag row read (inr tagged) = table.tagged_entity s k tag row read tagged

  -- The write replaces what was read.
  pub update-Replaced :
      (r s s' : T.State) (k : String) (mode : Mode) (patch : Entity) (row : Row)
      (tag : Option String)
      → T.get_entity r k ≡ returns row
      → Carries row tag
      → w.Follows r s
      → lookup "RowKey" patch ≡ some (text k)
      → T.update_entity s mode patch tag ≡ (returns tt, s')
      → Replaced T w k mode patch row.entity s s'
  update-Replaced r s s' k mode patch row tag read carries later key sent =
      let write = table.updated s s' k mode patch tag key sent in
      Wrote-Replaced T w k mode patch row.entity tag s s' write (
        table.same_version r s k write.etag later
          (etag_current r k write.etag row read (carries write.etag write.same_tag)) write.current
        ∙ table.found-get_entity r k row read)
