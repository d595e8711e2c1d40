-- ===== src/Tables/Service/Merge.antt =====
-- What stands under a name after a patch was merged into an entity, as try_acquire_run_lock,
-- renew_run_lock and reset_stale_locks of stores/azure_table.py write it.
use azure_functions_langgrap.Base.{
  String, Bool, true, false, none, [], ◌∷◌, ◌==◌, string_eq, ◌≡◌, refl, ◌∙◌, ap, arith, all,
  ==-false_of_ne, ==_iff, sym, Bool-cases, inl, inr,
}
use azure_functions_langgrap.Base.Dict.{lookup, insert, lookup-insert, Unique}
use azure_functions_langgrap.Base.Text.Slices.{◌+++◌, diverge}
use azure_functions_langgrap.Platform.Stores.{some_or}
use azure_functions_langgrap.Tables.{Entity}
use azure_functions_langgrap.Tables.Json.Names.{
  IsField, is_system-field, ne_field, append-ne-diverge,
}
use azure_functions_langgrap.Tables.Service.{merge, is_reserved}

-- The patch wins, and what it does not name stays.
pub lookup-merge :
    (name : String) (e patch : Entity)
    → Unique patch
    → lookup name (merge e patch) ≡ some_or (lookup name patch) (lookup name e)
unfolding merge lookup
lookup-merge name e [] u = refl
lookup-merge name e ((at, v) ∷ patch) u = elim (Bool-cases (at == name)) [
  | inl same ↦
      lookup-merge name (insert at v e) patch u.1
      ∙ rw
          (
            lookup-insert,
            same,
            ap (λ (n : String). lookup n patch) (sym ((==_iff at name).0 same)) ∙ u.0,
          )
          refl
  | inr other ↦ lookup-merge name (insert at v e) patch u.1 ∙ rw (lookup-insert, other) refl
]

-- A patch of which no name begins like the field.
abbrev pub avoids : String → Entity → Bool
avoids field patch = all (λ entry. diverge field entry.0) patch

lookup-avoids :
    (field x : String) (patch : Entity)
    → avoids field patch ≡ true
    → lookup (field +++ x) patch ≡ none
unfolding lookup
lookup-avoids field x [] h = refl
lookup-avoids field x ((at, v) ∷ patch) h =
    rw (ne_field at field x (ground (arith, h))) (lookup-avoids field x patch (ground (arith, h)))

pub lookup-merge_field :
    (field x : String) (e patch : Entity)
    → Unique patch
    → avoids field patch ≡ true
    → lookup (field +++ x) (merge e patch) ≡ lookup (field +++ x) e
lookup-merge_field field x e patch u h =
    lookup-merge (field +++ x) e patch u ∙ rw (lookup-avoids field x patch h) refl

-- A field none of whose names is reserved.
abbrev pub IsFree : String → Type 0
IsFree field =
    IsField field × (diverge field "PartitionKey" ≡ true) × (diverge field "RowKey" ≡ true)

pub is_reserved-field : (field x : String) → IsFree field → is_reserved (field +++ x) ≡ false
is_reserved-field field x (own, partition, row) =
    rw
      (
        is_system-field field x own,
        ==-false_of_ne (field +++ x) "PartitionKey"
            (append-ne-diverge field "PartitionKey" x partition),
        ==-false_of_ne (field +++ x) "RowKey" (append-ne-diverge field "RowKey" x row),
      )
      refl
