-- ===== src/Tables/Service/Journal.antt =====
-- A table that keeps a journal of its writes, newest first: an example of the service that
-- stores/azure_table.py calls. An ETag is the place of the write in the journal.
pub mod Content
pub mod Laws
pub mod Listing
use azure_functions_langgrap.Base.{
  ℕ, suc, String, Bool, true, false, not, Option, none, some, List, [], ◌∷◌, ◌==◌, string_eq,
  if◌then◌else◌, Outcome, returns, raises, filter, length,
}
use azure_functions_langgrap.Base.Dict.{lookup, insert}
use azure_functions_langgrap.Base.Text.Decimal.{str}
use azure_functions_langgrap.Tables.{
  Property, text, Entity, is_system, TableError, modified, not_found, service_error,
}
use azure_functions_langgrap.Tables.Service.{TableClient, View, Row, Mode, written}

-- A row key with what was written; `none` for a removal.
abbrev pub Journal : Type 0
Journal = List (String × Option Entity)

-- A row as it is read: under its key, without what only the service writes.
unfoldable pub stored : String → Entity → Entity
stored k e = insert "RowKey" (text k) (filter (λ entry. not (is_system entry.0)) e)

abbrev pub map_stored : String → Option Entity → Option Entity
map_stored k none = none
map_stored k (some e) = some (stored k e)

unfoldable pub content : Journal → String → Option Entity
content [] k = none
content ((at, e) ∷ s) k = if at == k then map_stored k e else content s k

-- The place of the last write of a row.
unfoldable pub place : Journal → String → ℕ
place [] k = 0
place ((at, e) ∷ s) k = if at == k then suc (length s) else place s k

unfoldable pub version : Journal → String → Option String
version s k = elim (content s k) [ none ↦ none | some e ↦ some (str (place s k)) ]

abbrev pub is_current : Option String → Option String → Bool
is_current (some tag) (some now) = tag == now
is_current _ _ = false

unfoldable pub read_row : Journal → String → Option Entity → Outcome TableError Row
read_row s k none = raises not_found
read_row s k (some e) = returns (record { entity = e; metadata = some (version s k) })

unfoldable pub write_row :
    Journal
    → String
    → Mode
    → Entity
    → Option String
    → Option Entity
    → Outcome {0, 0} TableError Unit × Journal
write_row s k mode patch tag none = (raises not_found, s)
write_row s k mode patch tag (some e) =
    if is_current tag (version s k)
    then (returns tt, (k, some (written mode e patch)) ∷ s)
    else (raises modified, s)

unfoldable pub update_row :
    Journal
    → Mode
    → Entity
    → Option String
    → Option Property
    → Outcome {0, 0} TableError Unit × Journal
unfolding write_row
update_row s mode patch tag (some (text k)) = write_row s k mode patch tag (content s k)
update_row s mode patch tag _ = (raises (service_error "RowKey"), s)

unfoldable pub add_row :
    Journal → Entity → Option Property → Outcome {0, 0} TableError Unit × Journal
add_row s e (some (text k)) = elim (content s k) [
  | none ↦ (returns tt, (k, some e) ∷ s)
  | some old ↦ (raises (service_error "exists"), s)
]
add_row s e _ = (raises (service_error "RowKey"), s)

unfoldable pub remove_row :
    Journal → String → Option Entity → Outcome {0, 0} TableError Unit × Journal
remove_row s k none = (raises not_found, s)
remove_row s k (some e) = (returns tt, (k, none) ∷ s)

abbrev pub is_status : String → Option Property → Bool
is_status status (some (text t)) = t == status
is_status status _ = false

-- The rows under some keys that have the status.
unfoldable pub rows_under : Journal → String → List String → List Row
rows_under s status [] = []
rows_under s status (k ∷ ks) =
    let rest = rows_under s status ks in
    elim (content s k) [
      | none ↦ rest
      | some e ↦
          if is_status status (lookup "status" e)
          then record { entity = e; metadata = some (version s k) } ∷ rest
          else rest
    ]

abbrev pub is_in : String → List String → Bool
is_in k [] = false
is_in k (j ∷ js) = if j == k then true else is_in k js

unfoldable pub keys : Journal → List String
keys [] = []
keys ((k, e) ∷ s) = let rest = keys s in if is_in k rest then rest else k ∷ rest

abbrev pub journal_client : TableClient
journal_client = record {
  State = Journal;
  create_entity = λ s e. add_row s e (lookup "RowKey" e);
  get_entity = λ s k. read_row s k (content s k);
  update_entity = λ s mode patch tag. update_row s mode patch tag (lookup "RowKey" patch);
  delete_entity = λ s k. remove_row s k (content s k);
  query_entities = λ s status names.
      returns (elim status [ none ↦ [] | some wanted ↦ rows_under s wanted (keys s) ]);
}
