-- ===== src/Tables/Json/Capacity.antt =====
-- What `validate_entity` of stores/_table_json.py lets through.
use azure_functions_langgrap.Base.{
  ℕ, suc, ◌+◌, ◌≤◌, String, Bool, true, false, ◌↔◌, [], ◌∷◌, ◌≡◌, refl, arith, length, all, leb,
  returns, >>=-returns, Bool-cases, inl, inr, if◌then◌else◌,
}
use azure_functions_langgrap.Base.Text.Slices.{utf16_size}
use azure_functions_langgrap.Tables.{
  Property, text, binary, boolean, integer, decimal, time, nothing, other, Entity,
}
use azure_functions_langgrap.Tables.Json.{
  is_skipped, value_size, validate_from, validate_entity, entity_bytes,
}
use azure_functions_langgrap.Tables.Json.Chunks.{counted}

-- A value of a storable type within the limit of one property.
abbrev pub fits : ℕ → Property → Bool
fits bytes (text t) = leb (utf16_size t) bytes
fits bytes (binary b) = leb (length b) bytes
fits bytes nothing = false
fits bytes (other name) = false
fits bytes _ = true

abbrev pub entry_fits : ℕ → String × Property → Bool
entry_fits bytes entry = if is_skipped entry then true else fits bytes entry.1

-- What a value adds to the size of its entity.
abbrev pub weight : Property → ℕ
weight (text t) = utf16_size t
weight (binary b) = length b
weight _ = 16

abbrev pub entry_weight : String × Property → ℕ
entry_weight entry = if is_skipped entry then 0 else utf16_size entry.0 + 32 + weight entry.1

abbrev pub total_weight : Entity → ℕ
total_weight [] = 0
total_weight (entry ∷ entries) = entry_weight entry + total_weight entries

value_size-fits :
    (bytes : ℕ) (v : Property) → fits bytes v ≡ true → value_size bytes v ≡ returns (weight v)
unfolding value_size
value_size-fits bytes (text t) h = ground arith
value_size-fits bytes (binary b) h = ground arith
value_size-fits bytes (boolean b) h = refl
value_size-fits bytes (integer n) h = refl
value_size-fits bytes (decimal x) h = refl
value_size-fits bytes (time t) h = refl
value_size-fits bytes nothing h = ground arith
value_size-fits bytes (other name) h = ground arith

value_size-returns :
    (bytes n : ℕ) (v : Property)
    → value_size bytes v ≡ returns n
    → (fits bytes v ≡ true) × (n ≡ weight v)
unfolding value_size
value_size-returns bytes n (text t) h = ground arith
value_size-returns bytes n (binary b) h = ground arith
value_size-returns bytes n (boolean b) h = ground arith
value_size-returns bytes n (integer m) h = ground arith
value_size-returns bytes n (decimal x) h = ground arith
value_size-returns bytes n (time t) h = ground arith
value_size-returns bytes n nothing h = ground arith
value_size-returns bytes n (other name) h = ground arith

abbrev pub Fits : ℕ → ℕ → ℕ → Entity → Type 0
Fits bytes size properties e =
    (all (entry_fits bytes) e ≡ true)
    × (properties + counted e ≤ 255)
    × (size + total_weight e ≤ entity_bytes)

validate_from-returns :
    (bytes size properties : ℕ) (e : Entity)
    → validate_from bytes size properties e ≡ returns tt
    → Fits bytes size properties e
unfolding validate_from
validate_from-returns bytes size properties [] h = (refl, ground arith, ground arith)
validate_from-returns bytes size properties (entry ∷ e) h = elim (Bool-cases (is_skipped entry)) [
  | inl skipped ↦
      let (fit, count, weights) =
        validate_from-returns bytes size properties e (ground (arith, skipped, h)) in
      (rw skipped fit, rw skipped (omega (arith, count)), rw skipped (omega (arith, weights)))
  | inr taken ↦
      let (n, sized, more) =
        >>=-returns (value_size bytes entry.1)
          (λ n. validate_from bytes (size + (utf16_size entry.0 + 32) + n) (suc properties) e) tt
          (ground (arith, taken, h)) in
      let (fit, same) = value_size-returns bytes n entry.1 sized in
      let (fits_all, count, weights) =
        validate_from-returns bytes (size + (utf16_size entry.0 + 32) + n) (suc properties) e
          more in
      (
        rw (taken, fit) fits_all,
        rw taken (omega (arith, count)),
        rw taken (omega (arith, weights, same)),
      )
]

validate_from-accepts :
    (bytes size properties : ℕ) (e : Entity)
    → Fits bytes size properties e
    → validate_from bytes size properties e ≡ returns tt
unfolding validate_from
validate_from-accepts bytes size properties [] (fit, count, weights) = ground arith
validate_from-accepts bytes size properties (entry ∷ e) (fit, count, weights) =
    elim (Bool-cases (is_skipped entry)) [
      | inl skipped ↦
          rw (validate_from, skipped)
            (validate_from-accepts bytes size properties e (
              ground (arith, skipped, fit),
              ground (arith, skipped, count),
              ground (arith, skipped, weights),
            ))
      | inr taken ↦
          rw (validate_from, taken, value_size-fits bytes entry.1 (ground (arith, taken, fit)))
            (validate_from-accepts bytes (size + (utf16_size entry.0 + 32) + weight entry.1)
              (suc properties) e
              (
                ground (arith, taken, fit),
                ground (arith, taken, count),
                ground (arith, taken, weights),
              ))
    ]

-- `validate_entity` returns exactly for the entities within the limits of the service: every
-- property of a storable type and within the limit of one property, with "PartitionKey", "RowKey"
-- and the reserve at most 255 properties, and names and values with 4096 reserved bytes at most
-- 1 MiB. Whatever else it meets makes it raise.
pub validate_entity_lem :
    (bytes : ℕ) (e : Entity) → (validate_entity bytes e ≡ returns tt) ↔ Fits bytes 4096 1 e
unfolding validate_entity
validate_entity_lem bytes e =
    (validate_from-returns bytes 4096 1 e, validate_from-accepts bytes 4096 1 e)
