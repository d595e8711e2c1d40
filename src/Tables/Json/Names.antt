-- ===== src/Tables/Json/Names.antt =====
-- The property names of stores/_table_json.py: what belongs to a field, and which names differ.
use azure_functions_langgrap.Base.{
  ℕ, String, true, false, ◌==◌, string_eq, ◌≡◌, ◌≢◌, refl, sym, ap, ◌∙◌, arith, ==_iff,
  ==-false_of_ne, false≢true, not, none, if◌then◌else◌,
}
use azure_functions_langgrap.Base.Dict.{lookup, lookup-filter_key}
use azure_functions_langgrap.Base.Text.Slices.{
  ◌+++◌, starts_with, diverge, starts_with-cancel, starts_with-diverge, append_nil, append-cancel,
  diverge-ne,
}
use azure_functions_langgrap.Base.Text.{is_empty}
use azure_functions_langgrap.Base.Text.Decimal.{str, str-injective, is_decimal, str-is_decimal}
use azure_functions_langgrap.Tables.{Entity, is_system}
use azure_functions_langgrap.Tables.Json.{belongs, clear, format_name, count_name, chunk_name}

-- A field whose names the service does not write itself.
abbrev pub IsField : String → Type 0
IsField field = (diverge field "etag" ≡ true) × (diverge field "Timestamp" ≡ true)

pub append-ne-diverge : (s t x : String) → diverge s t ≡ true → s +++ x ≢ t
append-ne-diverge s t x apart same = diverge-ne s t x "" apart (same ∙ sym (append_nil t))

pub is_system-field : (field x : String) → IsField field → is_system (field +++ x) ≡ false
is_system-field field x (a, b) =
    rw
      (
        ==-false_of_ne (field +++ x) "etag" (append-ne-diverge field "etag" x a),
        ==-false_of_ne (field +++ x) "Timestamp" (append-ne-diverge field "Timestamp" x b),
      )
      refl

pub belongs-append :
    (field x : String) → starts_with x "_" ≡ true → belongs field (field +++ x) ≡ true
belongs-append field x under = ground (arith, starts_with-cancel field x "_", under)

pub belongs-diverge :
    (field other x : String) → diverge other field ≡ true → belongs field (other +++ x) ≡ false
belongs-diverge field other x apart =
    rw
      (
        ==-false_of_ne (other +++ x) field (append-ne-diverge other field x apart),
        starts_with-diverge other field x "_" apart,
      )
      refl

pub chunk_name-ne :
    (field : String) (i j : ℕ) → i ≢ j → chunk_name field i == chunk_name field j ≡ false
unfolding chunk_name
chunk_name-ne field i j differ = ==-false_of_ne _ _ (λ same. differ (
    str-injective i j (
      append-cancel "_" (str i) (str j)
        (append-cancel field ("_" +++ str i) ("_" +++ str j) same))))

chunk_name-ne_text :
    (field t : String) (i : ℕ)
    → is_decimal t ≡ false
    → chunk_name field i == field +++ ("_" +++ t) ≡ false
unfolding chunk_name
chunk_name-ne_text field t i words = ==-false_of_ne _ _ (λ same. false≢true (
    sym words
    ∙ ap is_decimal
        (sym (append-cancel "_" (str i) t (append-cancel field ("_" +++ str i) ("_" +++ t) same)))
    ∙ str-is_decimal i))

pub chunk_name-format_name :
    (field : String) (i : ℕ) → chunk_name field i == format_name field ≡ false
chunk_name-format_name field i = chunk_name-ne_text field "format" i refl

pub chunk_name-count_name :
    (field : String) (i : ℕ) → chunk_name field i == count_name field ≡ false
chunk_name-count_name field i = chunk_name-ne_text field "count" i refl

pub format_name-count_name : (field : String) → format_name field == count_name field ≡ false
format_name-count_name field = ==-false_of_ne _ _ (λ same.
    false≢true
      (sym refl ∙ ap (λ (t : String). t == "_count") (append-cancel field "_format" "_count" same)))

-- After `clear` no name of the field is left, and every other name keeps its value.
pub lookup-clear :
    (field key : String) (entity : Entity)
    → lookup key (clear field entity) ≡ (if belongs field key then none else lookup key entity)
unfolding clear
lookup-clear field key entity =
    lookup-filter_key (λ k. not (belongs field k)) key entity ∙ ground arith

-- A name of another field is none of this field's.
module _ (field other x : String) (apart : diverge other field ≡ true) where
  pub ne_field : field == other +++ x ≡ false
  ne_field = ==-false_of_ne _ _ (λ same. append-ne-diverge other field x apart (sym same))

  pub ne_append : (y : String) → (field +++ y) == (other +++ x) ≡ false
  ne_append y = ==-false_of_ne _ _ (λ same. diverge-ne other field x y apart (sym same))

  pub ne-chunk_name : (j : ℕ) → chunk_name field j == (other +++ x) ≡ false
  unfolding chunk_name
  ne-chunk_name j = ne_append ("_" +++ str j)

pub ne_suffix : (field x : String) → is_empty x ≡ false → field == field +++ x ≡ false
ne_suffix field x filled = ==-false_of_ne _ _ (λ same.
    false≢true
      (sym filled ∙ ap is_empty (append-cancel field x "" (sym same ∙ sym (append_nil field)))))

pub ne_sym : (s t : String) → s == t ≡ false → t == s ≡ false
ne_sym s t differ = ground (arith, ==_iff s t, ==_iff t s)

pub is_system-chunk_name :
    (field : String) → IsField field → (j : ℕ) → is_system (chunk_name field j) ≡ false
unfolding chunk_name
is_system-chunk_name field own j = is_system-field field ("_" +++ str j) own
