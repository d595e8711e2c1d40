-- ===== src/Tables/Service/Journal/Laws.antt =====
-- The journal keeps the laws of the service.
use azure_functions_langgrap.Base.{
  String, true, false, not, Option, none, some, [], ◌∷◌, ◌++◌, ◌==◌, string_eq, ◌≡◌, refl, ap, sym,
  ◌∙◌, arith, returns, raises, filter, Bool-cases, inl, inr, Option-cases, returns-injective, ◌⊎◌,
  ==_iff, ==-refl,
}
use mathlib.Core.List.{append_assoc}
use azure_functions_langgrap.Base.Dict.{lookup, lookup-insert, lookup-filter_key}
use azure_functions_langgrap.Tables.{
  Property, text, binary, boolean, integer, decimal, time, nothing, other, Entity, is_system,
  TableError, modified, not_found, service_error,
}
use azure_functions_langgrap.Tables.Service.Etags.{some-injective}
use azure_functions_langgrap.Tables.Service.{
  IsTable, Wrote, Added, Removed, Row, Mode, written, entity_etag,
}
use azure_functions_langgrap.Tables.Service.Journal.{
  Journal, stored, map_stored, content, version, is_current, read_row, write_row, update_row,
  add_row, remove_row, journal_client,
}
use azure_functions_langgrap.Tables.Service.Journal.Content.{
  journal_view, lookup-stored, content-RowKey, same_place,
}

content_here :
    (k : String) (e : Option Entity) (s : Journal) → content ((k, e) ∷ s) k ≡ map_stored k e
unfolding content
content_here k e s = rw (==-refl k) refl

pub content_there :
    (k j : String) (e : Option Entity) (s : Journal)
    → k == j ≡ false
    → content ((k, e) ∷ s) j ≡ content s j
unfolding content
content_there k j e s apart = rw apart refl

is_current-same :
    (tag now : Option String)
    → is_current tag now ≡ true
    → (v : String) × (tag ≡ some v) × (now ≡ some v)
is_current-same none now h = absurd (ground arith)
is_current-same (some v) none h = absurd (ground arith)
is_current-same (some v) (some u) h =
    (v, refl, ap (λ (x : String). some x) (sym ((==_iff v u).0 h)))

write_row-Wrote :
    (s s' : Journal) (k : String) (mode : Mode) (patch : Entity) (tag : Option String)
    (found : Option Entity)
    → content s k ≡ found
    → write_row s k mode patch tag found ≡ (returns tt, s')
    → Wrote journal_client journal_view k mode patch tag s s'
unfolding write_row
write_row-Wrote s s' k mode patch tag none there h = absurd (ground (arith, h))
write_row-Wrote s s' k mode patch tag (some e) there h =
    elim (Bool-cases (is_current tag (version s k))) [
      | inr late ↦ absurd (ground (arith, late, h))
      | inl current ↦
          let (v, given, now) = is_current-same tag (version s k) current in
          let after = ap (λ p. p.1) (rw (write_row, current) at h) in
          record {
            old = e;
            etag = v;
            new = stored k (written mode e patch);
            found = there;
            same_tag = given;
            current = now;
            stored =
                ap (λ (u : Journal). content u k) (sym after)
                ∙ content_here k (some (written mode e patch)) s;
            content = λ name own. lookup-stored k name (written mode e patch) own;
            others = λ j apart.
                ap (λ (u : Journal). content u j) (sym after)
                ∙ content_there k j (some (written mode e patch)) s apart;
          }
    ]

write_row-moves :
    (s s' : Journal) (k : String) (mode : Mode) (patch : Entity) (tag : Option String)
    (found : Option Entity) (x : TableError)
    → write_row s k mode patch tag found ≡ (raises x, s')
    → s' ≡ s
unfolding write_row
write_row-moves s s' k mode patch tag none x h = sym (ap (λ p. p.1) h)
write_row-moves s s' k mode patch tag (some e) x h =
    elim (Bool-cases (is_current tag (version s k))) [
      | inl current ↦ absurd (ground (arith, current, h))
      | inr late ↦ sym (ap (λ p. p.1) (rw (write_row, late) at h))
    ]

write_row-journal :
    (s s' : Journal) (k : String) (mode : Mode) (patch : Entity) (tag : Option String)
    (found : Option Entity)
    → write_row s k mode patch tag found ≡ (returns tt, s')
    → (p : Journal) × (s' ≡ p ++ s)
unfolding write_row
write_row-journal s s' k mode patch tag none h = absurd (ground (arith, h))
write_row-journal s s' k mode patch tag (some e) h =
    elim (Bool-cases (is_current tag (version s k))) [
      | inr late ↦ absurd (ground (arith, late, h))
      | inl current ↦ (
        (k, some (written mode e patch)) ∷ [],
        sym (ap (λ p. p.1) (rw (write_row, current) at h)),
      )
    ]

-- A patch without a row key is refused.
abbrev Refused : Option Property → Type 0
Refused key =
    (s : Journal) (mode : Mode) (patch : Entity) (tag : Option String)
    → update_row s mode patch tag key ≡ (raises (service_error "RowKey"), s)

key_cases : (key : Option Property) → ((k : String) × (key ≡ some (text k))) ⊎ Refused key
unfolding update_row
key_cases none = inr (λ s mode patch tag. refl)
key_cases (some (text k)) = inl (k, refl)
key_cases (some (binary b)) = inr (λ s mode patch tag. refl)
key_cases (some (boolean b)) = inr (λ s mode patch tag. refl)
key_cases (some (integer n)) = inr (λ s mode patch tag. refl)
key_cases (some (decimal x)) = inr (λ s mode patch tag. refl)
key_cases (some (time t)) = inr (λ s mode patch tag. refl)
key_cases (some nothing) = inr (λ s mode patch tag. refl)
key_cases (some (other x)) = inr (λ s mode patch tag. refl)

update_row-Wrote :
    (s s' : Journal) (k : String) (mode : Mode) (patch : Entity) (tag : Option String)
    → lookup "RowKey" patch ≡ some (text k)
    → update_row s mode patch tag (lookup "RowKey" patch) ≡ (returns tt, s')
    → Wrote journal_client journal_view k mode patch tag s s'
unfolding update_row
update_row-Wrote s s' k mode patch tag keyed h =
    write_row-Wrote s s' k mode patch tag (content s k) refl (rw (update_row, keyed) at h)

update_row-moves :
    (s s' : Journal) (mode : Mode) (patch : Entity) (tag : Option String) (key : Option Property)
    (x : TableError)
    → update_row s mode patch tag key ≡ (raises x, s')
    → s' ≡ s
unfolding update_row
update_row-moves s s' mode patch tag key x h = elim (key_cases key) [
  | inr refused ↦ sym (ap (λ p. p.1) h) ∙ ap (λ p. p.1) (refused s mode patch tag)
  | inl (k, keyed) ↦
      write_row-moves s s' k mode patch tag (content s k) x (rw (update_row, keyed) at h)
]

update_row-journal :
    (s s' : Journal) (mode : Mode) (patch : Entity) (tag : Option String) (key : Option Property)
    → update_row s mode patch tag key ≡ (returns tt, s')
    → (p : Journal) × (s' ≡ p ++ s)
unfolding update_row
update_row-journal s s' mode patch tag key h = elim (key_cases key) [
  | inr refused ↦ absurd (ground (arith, refused s mode patch tag, h))
  | inl (k, keyed) ↦
      write_row-journal s s' k mode patch tag (content s k) (rw (update_row, keyed) at h)
]

add_row-Added :
    (s s' : Journal) (k : String) (e : Entity)
    → lookup "RowKey" e ≡ some (text k)
    → add_row s e (lookup "RowKey" e) ≡ (returns tt, s')
    → Added journal_client journal_view k e s s'
unfolding add_row
add_row-Added s s' k e keyed h = elim (Option-cases (content s k)) [
  | inr (old, there) ↦ absurd (ground (arith, keyed, there, h))
  | inl fresh ↦
      let after = ap (λ p. p.1) (rw (add_row, keyed, fresh) at h) in
      record {
        new = stored k e;
        fresh = fresh;
        stored = ap (λ (u : Journal). content u k) (sym after) ∙ content_here k (some e) s;
        content = λ name own. lookup-stored k name e own;
        others = λ j apart.
            ap (λ (u : Journal). content u j) (sym after) ∙ content_there k j (some e) s apart;
      }
]

remove_row-Removed :
    (s s' : Journal) (k : String) (found : Option Entity)
    → content s k ≡ found
    → remove_row s k found ≡ (returns tt, s')
    → Removed journal_client journal_view k s s'
unfolding remove_row
remove_row-Removed s s' k none there h = absurd (ground (arith, h))
remove_row-Removed s s' k (some e) there h =
    let after = ap (λ p. p.1) h in
    record {
      old = e;
      found = there;
      missing = ap (λ (u : Journal). content u k) (sym after) ∙ content_here k none s;
      others =
          λ j apart. ap (λ (u : Journal). content u j) (sym after) ∙ content_there k j none s apart;
    }

read_row-found :
    (s : Journal) (k : String) (found : Option Entity) (row : Row)
    → read_row s k found ≡ returns row
    → (found ≡ some row.entity) × (row.metadata ≡ some (version s k))
unfolding read_row
read_row-found s k none row h = absurd (ground (arith, h))
read_row-found s k (some e) row h =
    let same = returns-injective (record { entity = e; metadata = some (version s k) }) row h in
    (ap (λ (r : Row). some r.entity) same, sym (ap (λ (r : Row). r.metadata) same))

read_row-missing :
    (s : Journal) (k : String) (found : Option Entity)
    → read_row s k found ≡ raises not_found
    → found ≡ none
unfolding read_row
read_row-missing s k none h = refl
read_row-missing s k (some e) h = absurd (ground (arith, h))

-- No row carries an ETag among its properties.
content-untagged :
    (s : Journal) (k : String) (e : Entity) → content s k ≡ some e → lookup "etag" e ≡ none
unfolding content stored
content-untagged [] k e h = absurd (ground arith)
content-untagged ((at, none) ∷ s) k e h = elim (Bool-cases (at == k)) [
  | inl same ↦ absurd (ground (arith, same, h))
  | inr apart ↦ content-untagged s k e (ground (arith, apart, h))
]
content-untagged ((at, some x) ∷ s) k e h = elim (Bool-cases (at == k)) [
  | inl same ↦
      ap (λ (d : Entity). lookup "etag" d)
        (sym (some-injective (stored k x) e (rw (content, same) at h)))
      ∙ lookup-insert "RowKey" "etag" (text k) (filter (λ entry. not (is_system entry.0)) x)
      ∙ lookup-filter_key (λ n. not (is_system n)) "etag" x
  | inr apart ↦ content-untagged s k e (ground (arith, apart, h))
]

pub journal-IsTable : IsTable journal_client journal_view
journal-IsTable = record {
  found-get_entity = λ s k row h. (read_row-found s k (content s k) row h).0;
  missing-get_entity = λ s k h. read_row-missing s k (content s k) h;
  keyed = content-RowKey;
  tagged_metadata = λ s k tag row h tagged.
      some_tag (version s k) tag (sym (read_row-found s k (content s k) row h).1 ∙ tagged);
  tagged_entity = λ s k tag row h tagged. absurd (
      untagged row tag (content-untagged s k row.entity (read_row-found s k (content s k) row h).0)
        tagged);
  updated = update_row-Wrote;
  created = add_row-Added;
  deleted = λ s s' k h. remove_row-Removed s s' k (content s k) refl h;
  lost = λ s s' mode patch tag h.
      update_row-moves s s' mode patch tag (lookup "RowKey" patch) modified h;
  gone = λ s s' mode patch tag h.
      update_row-moves s s' mode patch tag (lookup "RowKey" patch) not_found h;
  same_version = λ s s' k tag later old now. same_later s s' k tag later.0 later.1 old now;
  acts = λ s s' mode patch tag h. update_row-journal s s' mode patch tag (lookup "RowKey" patch) h;
  stays = λ s. ([], refl);
  goes_on = λ s u v one two. (
    two.0 ++ one.0,
    two.1 ∙ ap (λ (x : Journal). two.0 ++ x) one.1 ∙ sym (append_assoc two.0 one.0 s),
  );
}
  where
    some_tag :
        (o : Option String) (tag : String)
        → ◌≡◌ {A = Option (Option String)} (some o) (some (some tag))
        → o ≡ some tag
    some_tag o tag h = ap (λ (p : Option (Option String)). elim p [ none ↦ o | some x ↦ x ]) h

    untagged :
        (row : Row) (tag : String)
        → lookup "etag" row.entity ≡ none
        → entity_etag row ≡ some tag
        → ⊥
    untagged row tag missing h = ground (arith, missing, h)

    same_later :
        (s s' : Journal) (k tag : String) (p : Journal)
        → s' ≡ p ++ s
        → version s k ≡ some tag
        → version s' k ≡ some tag
        → content s' k ≡ content s k
    same_later s s' k tag p later old now =
        ap (λ (u : Journal). content u k) later
        ∙ same_place p s k tag old (ap (λ (u : Journal). version u k) (sym later) ∙ now)
