-- ===== src/Tables/Service/Journal/Content.antt =====
-- What stands in the journal: rows under their keys, and ETags that name one version of a row.
use azure_functions_langgrap.Base.{
  suc, ◌≤◌, String, true, false, not, Option, none, some, [], ◌∷◌, ◌++◌, ◌==◌, string_eq,
  if◌then◌else◌, ◌≡◌, refl, ap, sym, ◌∙◌, arith, filter, length, Bool-cases, inl, inr,
  length-append,
}
use azure_functions_langgrap.Base.Dict.{
  lookup, lookup-insert, lookup-insert_self, lookup-filter_key,
}
use azure_functions_langgrap.Base.Text.Decimal.{str, str-injective}
use azure_functions_langgrap.Tables.{text, Entity, is_system}
use azure_functions_langgrap.Tables.Service.Etags.{some-injective}
use azure_functions_langgrap.Tables.Json.Names.{ne_sym}
use azure_functions_langgrap.Tables.Service.{View, is_reserved}
use azure_functions_langgrap.Tables.Service.Journal.{
  Journal, stored, content, place, version, journal_client,
}

abbrev pub journal_view : View journal_client
journal_view = record {
  find = content;
  version = version;
  Follows = λ s s'. (p : Journal) × (s' ≡ p ++ s);
}

pub lookup-stored :
    (k name : String) (e : Entity)
    → is_reserved name ≡ false
    → lookup name (stored k e) ≡ lookup name e
unfolding stored
lookup-stored k name e own =
    lookup-insert "RowKey" name (text k) (filter (λ entry. not (is_system entry.0)) e)
    ∙ rw (ne_sym name "RowKey" (ground (arith, own)))
        (lookup-filter_key (λ n. not (is_system n)) name e ∙ system)
  where
    system : (if not (is_system name) then lookup name e else none) ≡ lookup name e
    system = ground (arith, own)

pub content-RowKey :
    (s : Journal) (k : String) (e : Entity)
    → content s k ≡ some e
    → lookup "RowKey" e ≡ some (text k)
unfolding content stored
content-RowKey [] k e h = absurd (ground arith)
content-RowKey ((at, none) ∷ s) k e h = elim (Bool-cases (at == k)) [
  | inl same ↦ absurd (ground (arith, same, h))
  | inr apart ↦ content-RowKey s k e (ground (arith, apart, h))
]
content-RowKey ((at, some x) ∷ s) k e h = elim (Bool-cases (at == k)) [
  | inl same ↦
      ap (λ (d : Entity). lookup "RowKey" d)
        (sym (some-injective (stored k x) e (rw (content, same) at h)))
      ∙ lookup-insert_self "RowKey" (text k) (filter (λ entry. not (is_system entry.0)) x)
  | inr apart ↦ content-RowKey s k e (ground (arith, apart, h))
]

place_le : (s : Journal) (k : String) → place s k ≤ length s
unfolding place
place_le [] k = omega arith
place_le ((at, e) ∷ s) k = ground (arith, place_le s k)

version-place : (s : Journal) (k tag : String) → version s k ≡ some tag → tag ≡ str (place s k)
unfolding version
version-place s k tag h = ground (arith, h)

place_here :
    (at k : String) (e : Option Entity) (s : Journal)
    → at == k ≡ true
    → place ((at, e) ∷ s) k ≡ suc (length s)
unfolding place
place_here at k e s same = rw same refl

-- A later journal that shows the ETag of an earlier one has the same row.
pub same_place :
    (p s : Journal) (k tag : String)
    → version s k ≡ some tag
    → version (p ++ s) k ≡ some tag
    → content (p ++ s) k ≡ content s k
unfolding content place version
same_place [] s k tag old now = refl
same_place ((at, e) ∷ p) s k tag old now = elim (Bool-cases (at == k)) [
  | inr apart ↦ rw (content, apart) (same_place p s k tag old (ground (arith, apart, now)))
  | inl same ↦ absurd (
      omega (
        arith,
        str-injective (place s k) (place ((at, e) ∷ (p ++ s)) k)
            (sym (version-place s k tag old) ∙ version-place ((at, e) ∷ (p ++ s)) k tag now),
        place_here at k e (p ++ s) same,
        place_le s k,
        length-append p s,
      ))
]
