-- ===== src/Tables/Json/RoundTrip.antt =====
-- `write_json` and `read_json` of stores/_table_json.py together.
use Prim.Native.Nat.{◌/◌}
use mathlib.Core.Path.{subst}
use azure_functions_langgrap.Base.{
  ℕ, ◌≤◌, ◌<◌, String, true, false, none, some, List, string_eq, ◌≡◌, refl, sym, ap, ◌∙◌, arith,
  length, leb, returns, >>=-returns, returns-injective, Bool-cases, inl, inr, pos, map,
}
use azure_functions_langgrap.Base.Dict.{
  lookup, insert, remove, lookup-remove, lookup-insert, lookup-insert_self,
}
use azure_functions_langgrap.Base.Text.Slices.{
  ◌+++◌, starts_with, utf16_size, slices, length-slices_pos, concat, concat-slices, append_nil,
}
use azure_functions_langgrap.Tables.{text, integer, Entity}
use azure_functions_langgrap.Tables.Json.{
  Codec, IsLossless, write_json, put_encoded, put_chunks, read_json, validate_entity, clear,
  format_name, count_name, chunk_name, chunks_at, read_chunked, read_legacy,
}
use azure_functions_langgrap.Tables.Json.Capacity.{validate_entity_lem}
use azure_functions_langgrap.Tables.Json.Agree.{Agree, lookup-Agree, read_json-Agree}
use azure_functions_langgrap.Tables.Json.Names.{
  IsField, is_system-field, belongs-append, lookup-clear, chunk_name-format_name,
  chunk_name-count_name, format_name-count_name, ne_suffix, ne_sym, is_system-chunk_name,
}
use azure_functions_langgrap.Tables.Json.Chunks.{
  lookup-put_chunks_other, lookup-put_chunks, chunks_at-put_chunks, join-text, counted-remove,
  counted-chunks,
}

-- A field that is not there reads as the default.
pub read_json-missing :
    {A : Type 0} (codec : Codec A) (field : String) (default : A) (e : Entity)
    → lookup (format_name field) e ≡ none
    → lookup field e ≡ none
    → read_json codec field default e ≡ returns default
unfolding read_json read_legacy
read_json-missing codec field default e whole missing = rw (read_json, whole, missing) refl

-- The small form: the whole text in one property.
read_json-whole :
    {A : Type 0} (codec : Codec A) (field encoded : String) (default : A) (e : Entity)
    → lookup (format_name field) e ≡ none
    → lookup field e ≡ some (text encoded)
    → read_json codec field default e ≡ codec.loads encoded
unfolding read_json read_legacy
read_json-whole codec field encoded default e whole found = rw (read_json, whole, found) refl

-- The large form: a format, a count and the chunks.
read_json-chunked :
    {A : Type 0} (codec : Codec A) (field : String) (chunks : List String) (default : A)
    (e : Entity)
    → lookup (format_name field) e ≡ some (text "utf16-v1")
    → lookup (count_name field) e ≡ some (integer (pos (length chunks)))
    → 1 ≤ length chunks
    → length chunks ≤ 252
    → chunks_at field 0 (length chunks) e ≡ returns (map text chunks)
    → read_json codec field default e ≡ codec.loads (concat chunks)
unfolding read_json read_chunked
read_json-chunked codec field chunks default e format count positive bounded found =
    rw (read_json, format) (ground (arith, count, found, join-text chunks, positive, bounded))

cleared :
    (field x : String) (e : Entity)
    → starts_with x "_" ≡ true
    → lookup (field +++ x) (clear field e) ≡ none
cleared field x e under = rw (lookup-clear, belongs-append field x under) refl

-- The number of chunks that an entity within the limits has room for.
chunks_bounded :
    (bytes n : ℕ) (field : String) (d : Entity)
    → IsField field
    → validate_entity bytes d ≡ returns tt
    → lookup (format_name field) d ≡ some (text "utf16-v1")
    → lookup (count_name field) d ≡ some (integer (pos n))
    → ((j : ℕ) → j < n → (chunk : String) × (lookup (chunk_name field j) d ≡ some (text chunk)))
    → n ≤ 252
chunks_bounded bytes n field d own valid format counter found =
    let bare = remove (format_name field) d in
    let barer = remove (count_name field) bare in
    let (_, count, _) = (validate_entity_lem bytes d).0 valid in
    omega (
      arith,
      count,
      counted-remove (format_name field) (text "utf16-v1") d format
          (rw (is_system-field field "_format" own) refl),
      counted-remove (count_name field) (integer (pos n)) bare
          (lookup-remove (format_name field) (count_name field) d
            ∙ rw (format_name-count_name field) counter)
          (rw (is_system-field field "_count" own) refl),
      counted-chunks field n barer (is_system-chunk_name field own) (λ j below.
          let (chunk, there) = found j below in
          (
            chunk,
            lookup-remove (count_name field) (chunk_name field j) bare
                ∙ rw (ne_sym _ _ (chunk_name-count_name field j)) (
                    lookup-remove (format_name field) (chunk_name field j) d
                    ∙ rw (ne_sym _ _ (chunk_name-format_name field j)) there),
          )),
    )

-- The count and the chunks of the large form, as `write_json` leaves them.
module _ (field : String) (chunks : List String) (e : Entity) where
  abbrev put_large : Entity
  put_large = put_chunks field 0 chunks (
      insert (count_name field) (integer (pos (length chunks)))
        (insert (format_name field) (text "utf16-v1") (clear field e)))

  format-put_large : lookup (format_name field) put_large ≡ some (text "utf16-v1")
  format-put_large =
      lookup-put_chunks_other field (format_name field) 0 chunks _ (chunk_name-format_name field)
      ∙ rw
          (
            lookup-insert,
            ne_sym (format_name field) (count_name field) (format_name-count_name field),
            lookup-insert_self,
          )
          refl

  count-put_large : lookup (count_name field) put_large ≡ some (integer (pos (length chunks)))
  count-put_large =
      lookup-put_chunks_other field (count_name field) 0 chunks _ (chunk_name-count_name field)
      ∙ rw lookup-insert_self refl

module _ {A : Type 0} (codec : Codec A) (bytes : ℕ) (field encoded : String) (default : A)
    (e d : Entity) (own : IsField field)
    (same : Agree field d (put_encoded bytes field encoded e)) where
  read_json-put_small :
      leb (utf16_size encoded) bytes ≡ true → read_json codec field default d ≡ codec.loads encoded
  unfolding put_encoded
  read_json-put_small small =
      read_json-whole codec field encoded default d
        (same "_format"
          ∙ rw (put_encoded, small, lookup-insert, ne_suffix field "_format" refl)
              (cleared field "_format" e refl))
        (ap (λ (name : String). lookup name d) (sym (append_nil field))
          ∙ same ""
          ∙ ap (λ (name : String). lookup name (put_encoded bytes field encoded e))
              (append_nil field)
          ∙ rw (put_encoded, small) (lookup-insert_self field (text encoded) (clear field e)))

  read_json-put_large :
      2 ≤ bytes
      → validate_entity bytes d ≡ returns tt
      → leb (utf16_size encoded) bytes ≡ false
      → read_json codec field default d ≡ codec.loads encoded
  unfolding put_encoded
  read_json-put_large wide valid large =
      read_json-Agree codec field default d (put_large field chunks e) agree
      ∙ read_json-chunked codec field chunks default (put_large field chunks e)
          (format-put_large field chunks e) (count-put_large field chunks e) filled
          (chunks_bounded bytes (length chunks) field d own valid
            (agree "_format" ∙ format-put_large field chunks e)
            (agree "_count" ∙ count-put_large field chunks e)
            (λ j below.
              let (chunk, there) =
                lookup-put_chunks field 0 j chunks _ (omega arith) (omega (arith, below)) in
              (chunk, lookup-Agree field j d (put_large field chunks e) agree ∙ there)))
          (chunks_at-put_chunks field 0 chunks _)
      ∙ ap codec.loads (concat-slices (bytes / 2) encoded (omega arith))
    where
      chunks : List String
      chunks = slices (bytes / 2) encoded

      agree : Agree field d (put_large field chunks e)
      agree x = rw (put_encoded, large) at same x

      filled : 1 ≤ length chunks
      filled = length-slices_pos bytes (bytes / 2) encoded large

-- In every entity that has the names of the field as `write_json` left them and that
-- `validate_entity` accepts, `read_json` finds the value that was written, in one property or in
-- chunks: an accepted entity never has more chunks than `read_json` allows. The limit of one
-- property is at least the two bytes of a chunk of one character.
pub read_json-write_json :
    {A : Type 0} (codec : Codec A) (bytes : ℕ) (field : String) (value default : A)
    (e written d : Entity)
    → IsLossless codec
    → IsField field
    → 2 ≤ bytes
    → write_json bytes codec field value e ≡ returns written
    → Agree field d written
    → validate_entity bytes d ≡ returns tt
    → read_json codec field default d ≡ returns value
unfolding write_json
read_json-write_json codec bytes field value default e written d lossless own wide wrote same
      valid =
    let (encoded, dumped, left) =
      >>=-returns (codec.dumps value) (λ t. returns (put_encoded bytes field t e)) written wrote in
    let agree = subst (λ w. Agree field d w) (sym (returns-injective _ _ left)) same in
    elim (Bool-cases (leb (utf16_size encoded) bytes)) [
      | inl small ↦
          read_json-put_small codec bytes field encoded default e d own agree small
          ∙ lossless value encoded dumped
      | inr large ↦
          read_json-put_large codec bytes field encoded default e d own agree wide valid large
          ∙ lossless value encoded dumped
    ]
