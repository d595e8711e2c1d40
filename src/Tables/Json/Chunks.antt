-- ===== src/Tables/Json/Chunks.antt =====
-- Chunks that are written one behind the other and read back: `put_chunks` and `chunks_at`.
use mathlib.Core.Path.{ap₂}
use azure_functions_langgrap.Base.{
  ℕ, zero, suc, ◌+◌, ◌≤◌, ◌<◌, String, false, not, some, List, [], ◌∷◌, ◌==◌, string_eq, ◌≡◌, refl,
  sym, ap, ◌∙◌, arith, map, length, count_if, returns, Bool-cases, inl, inr, ==_iff, nat_beq,
}
use azure_functions_langgrap.Base.Dict.{
  lookup, insert, remove, lookup-insert, lookup-insert_self, lookup-remove,
}
use azure_functions_langgrap.Base.Text.Slices.{concat}
use azure_functions_langgrap.Tables.{Property, text, Entity, is_system}
use azure_functions_langgrap.Tables.Json.{chunk_name, put_chunks, chunks_at, join, is_skipped}
use azure_functions_langgrap.Tables.Json.Names.{chunk_name-ne}

pub lookup-put_chunks_other :
    (field other : String) (i : ℕ) (chunks : List String) (e : Entity)
    → ((j : ℕ) → chunk_name field j == other ≡ false)
    → lookup other (put_chunks field i chunks e) ≡ lookup other e
unfolding put_chunks
lookup-put_chunks_other field other i [] e apart = refl
lookup-put_chunks_other field other i (c ∷ cs) e apart =
    lookup-put_chunks_other field other (suc i) cs (insert (chunk_name field i) (text c) e) apart
    ∙ rw (lookup-insert, apart i) refl

lookup-put_chunks_before :
    (field : String) (i j : ℕ) (chunks : List String) (e : Entity)
    → j < i
    → lookup (chunk_name field j) (put_chunks field i chunks e) ≡ lookup (chunk_name field j) e
unfolding put_chunks
lookup-put_chunks_before field i j [] e before = refl
lookup-put_chunks_before field i j (c ∷ cs) e before =
    lookup-put_chunks_before field (suc i) j cs (insert (chunk_name field i) (text c) e)
      (omega arith)
    ∙ rw (lookup-insert, chunk_name-ne field i j (λ same. omega (arith, same, before))) refl

chunks_at-suc :
    (field : String) (i n : ℕ) (e : Entity) (p : Property) (ps : List Property)
    → lookup (chunk_name field i) e ≡ some p
    → chunks_at field (suc i) n e ≡ returns ps
    → chunks_at field i (suc n) e ≡ returns (p ∷ ps)
unfolding chunks_at
chunks_at-suc field i n e p ps found others = ground (arith, found, others)

chunks_at-zero : (field : String) (i : ℕ) (e : Entity) → chunks_at field i 0 e ≡ returns []
unfolding chunks_at
chunks_at-zero field i e = refl

-- What is read at the indices is what was written there.
pub chunks_at-put_chunks :
    (field : String) (i : ℕ) (chunks : List String) (e : Entity)
    → chunks_at field i (length chunks) (put_chunks field i chunks e) ≡ returns (map text chunks)
unfolding put_chunks
chunks_at-put_chunks field i [] e = chunks_at-zero field i e
chunks_at-put_chunks field i (c ∷ cs) e =
    let written = insert (chunk_name field i) (text c) e in
    chunks_at-suc field i (length cs) (put_chunks field (suc i) cs written) (text c) (map text cs)
      (lookup-put_chunks_before field (suc i) i cs written (omega arith)
        ∙ lookup-insert_self (chunk_name field i) (text c) e)
      (chunks_at-put_chunks field (suc i) cs written)

pub lookup-put_chunks :
    (field : String) (i j : ℕ) (chunks : List String) (e : Entity)
    → i ≤ j
    → j < i + length chunks
    → (chunk : String) × (lookup (chunk_name field j) (put_chunks field i chunks e)
        ≡ some (text chunk))
unfolding put_chunks
lookup-put_chunks field i j [] e above below = absurd (omega arith)
lookup-put_chunks field i j (c ∷ cs) e above below =
    let written = insert (chunk_name field i) (text c) e in
    elim (Bool-cases (nat_beq i j)) [
      | inl same ↦ (
        c,
        ap (λ (n : ℕ). lookup (chunk_name field n) (put_chunks field (suc i) cs written))
              (sym (ground (arith, same)))
            ∙ lookup-put_chunks_before field (suc i) i cs written (omega arith)
            ∙ lookup-insert_self (chunk_name field i) (text c) e,
      )
      | inr more ↦ lookup-put_chunks field (suc i) j cs written (ground arith) (omega arith)
    ]

pub join-text : (chunks : List String) → join (map text chunks) ≡ returns (concat chunks)
unfolding join
join-text [] = refl
join-text (c ∷ cs) = rw (join-text cs) refl

-- The properties that count towards the limit of an entity.
abbrev pub counted : Entity → ℕ
counted e = count_if (λ entry. not (is_skipped entry)) e

some-injective : (v w : Property) → some v ≡ some w → v ≡ w
some-injective v w h = ground arith

counted-remove_le : (name : String) (e : Entity) → counted (remove name e) ≤ counted e
unfolding remove
counted-remove_le name [] = omega arith
counted-remove_le name ((at, v) ∷ e) = ground (arith, counted-remove_le name e)

pub counted-remove :
    (name : String) (value : Property) (e : Entity)
    → lookup name e ≡ some value
    → is_skipped (name, value) ≡ false
    → suc (counted (remove name e)) ≤ counted e
unfolding lookup remove
counted-remove name value [] found full = absurd (ground arith)
counted-remove name value ((at, v) ∷ e) found full = elim (Bool-cases (at == name)) [
  | inl same ↦
      rw
        (
          same,
          ap₂ (λ (n : String) (p : Property). is_skipped (n, p)) ((==_iff at name).0 same)
                (some-injective v value (ground (arith, same, found)))
              ∙ full,
        )
        (omega (arith, counted-remove_le name e))
  | inr other ↦
      rw other (omega (arith, counted-remove name value e (ground (arith, other, found)) full))
]

-- Chunks under different indices are different properties.
pub counted-chunks :
    (field : String) (n : ℕ) (e : Entity)
    → ((j : ℕ) → is_system (chunk_name field j) ≡ false)
    → ((j : ℕ) → j < n → (chunk : String) × (lookup (chunk_name field j) e ≡ some (text chunk)))
    → n ≤ counted e
counted-chunks field zero e own found = omega arith
counted-chunks field (suc n) e own found =
    let (chunk, here) = found n (omega arith) in
    omega (
      arith,
      counted-remove (chunk_name field n) (text chunk) e here (rw (own n) refl),
      counted-chunks field n (remove (chunk_name field n) e) own (λ j below.
          let (other, there) = found j (omega (arith, below)) in
          (
            other,
            lookup-remove (chunk_name field n) (chunk_name field j) e
                ∙ rw (chunk_name-ne field n j (λ same. omega (arith, same, below))) there,
          )),
    )
