-- ===== src/Tables/Json/Agree.antt =====
-- Entities that agree on the names of one field of stores/_table_json.py, and what `write_json`
-- leaves of the other fields.
use Prim.Native.Nat.{◌/◌}
use mathlib.Core.Path.{ap₂, fun_ext}
use azure_functions_langgrap.Base.{
  ℕ, zero, suc, String, true, none, some, List, string_eq, ◌≡◌, refl, sym, ap, Option, Option-cases,
  Outcome, raises, ◌>>=◌, ◌>>◌, ◌∙◌, arith, leb, returns, Bool-cases, inl, inr,
}
use azure_functions_langgrap.Base.Dict.{lookup, lookup-insert}
use azure_functions_langgrap.Base.Text.Slices.{◌+++◌, diverge, utf16_size, slices, append_nil}
use azure_functions_langgrap.Base.Text.Decimal.{str}
use azure_functions_langgrap.Tables.{Property, Entity, TableError, key_error}
use azure_functions_langgrap.Tables.Json.{
  Codec, put_encoded, read_json, clear, format_name, count_name, chunk_name, chunks_at, join,
  read_chunked, read_legacy, check_format, valid_count,
}
use azure_functions_langgrap.Tables.Json.Names.{
  lookup-clear, belongs-diverge, ne_field, ne_append, ne-chunk_name,
}
use azure_functions_langgrap.Tables.Json.Chunks.{lookup-put_chunks_other}

-- The two entities have the same values under every name of the field.
abbrev pub Agree : String → Entity → Entity → Type 0
Agree field e d = (x : String) → lookup (field +++ x) e ≡ lookup (field +++ x) d

pub lookup-Agree :
    (field : String) (i : ℕ) (e d : Entity)
    → Agree field e d
    → lookup (chunk_name field i) e ≡ lookup (chunk_name field i) d
unfolding chunk_name
lookup-Agree field i e d same = same ("_" +++ str i)

chunks_at-Agree :
    (field : String) (i n : ℕ) (e d : Entity)
    → Agree field e d
    → chunks_at field i n e ≡ chunks_at field i n d
unfolding chunks_at
chunks_at-Agree field i zero e d same = refl
chunks_at-Agree field i (suc n) e d same =
    ground (arith, lookup-Agree field i e d same, chunks_at-Agree field (suc i) n e d same)

read_chunked-Agree :
    {A : Type 0} (codec : Codec A) (field : String) (format : Property) (e d : Entity)
    → Agree field e d
    → read_chunked codec field format e ≡ read_chunked codec field format d
unfolding read_chunked
read_chunked-Agree codec field format e d same =
    ap₂
      (λ (o : Option Property) (chunks : ℕ → Outcome TableError (List Property)). do
        check_format format
        count ← (elim o [ none ↦ raises (key_error (count_name field)) | some v ↦ returns v ])
        n ← valid_count field count
        found ← chunks n
        encoded ← join found
        codec.loads encoded)
      (same "_count") (fun_ext (λ n. chunks_at-Agree field 0 n e d same))

-- `read_json` reads nothing but the names of its field.
pub read_json-Agree :
    {A : Type 0} (codec : Codec A) (field : String) (default : A) (e d : Entity)
    → Agree field e d
    → read_json codec field default e ≡ read_json codec field default d
unfolding read_json
read_json-Agree codec field default e d same = elim (Option-cases (lookup (format_name field) d)) [
  | inl whole ↦
      rw (read_json, same "_format" ∙ whole, whole)
        (ap (read_legacy codec default) (
          ap (λ (name : String). lookup name e) (sym (append_nil field))
          ∙ same ""
          ∙ ap (λ (name : String). lookup name d) (append_nil field)))
  | inr (format, chunked) ↦
      rw (read_json, same "_format" ∙ chunked, chunked)
        (read_chunked-Agree codec field format e d same)
]

-- What `write_json` leaves of the other fields.
pub put_encoded-Agree :
    (bytes : ℕ) (field other encoded : String) (e : Entity)
    → diverge other field ≡ true
    → Agree other (put_encoded bytes field encoded e) e
unfolding put_encoded
put_encoded-Agree bytes field other encoded e apart x =
    elim (Bool-cases (leb (utf16_size encoded) bytes)) [
      | inl small ↦ rw (small, lookup-insert, ne_field field other x apart) rest
      | inr large ↦ rw large (
          lookup-put_chunks_other field (other +++ x) 0 chunks _
            (λ j. ne-chunk_name field other x apart j)
          ∙ rw
              (
                lookup-insert,
                ne_append field other x apart "_count",
                lookup-insert,
                ne_append field other x apart "_format",
              )
              rest)
    ]
  where
    chunks : List String
    chunks = slices (bytes / 2) encoded

    rest : lookup (other +++ x) (clear field e) ≡ lookup (other +++ x) e
    rest = rw (lookup-clear, belongs-diverge field other x apart) refl
