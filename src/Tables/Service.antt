-- ===== src/Tables/Service.antt =====
-- The table client that stores/azure_table.py calls, which is not part of the repository: its
-- methods are parameters, over the state of the table, and what the store relies on is a record of
-- laws. All rows are in the partition "thread".
pub mod Merge
pub mod Etags
pub mod Journal
use azure_functions_langgrap.Base.{
  String, Bool, true, false, ◌||◌, Option, none, some, List, ◌==◌, string_eq, ◌≡◌, Outcome, returns,
  raises, if◌then◌else◌,
}
use azure_functions_langgrap.Base.Dict.{lookup, insert}
use azure_functions_langgrap.Tables.{
  Property, text, Entity, is_system, TableError, modified, not_found,
}

-- An entity that a read returns; `metadata` is its attribute of that name, if that is a mapping,
-- with what the mapping holds under "etag".
pub record Row : Type 0 where
  pub entity : Entity
  pub metadata : Option (Option String)

pub data Mode : Type 0 where
  merges replaces : Mode

-- `{**entity, **patch}`, which is also what the service stores in the mode "merge".
unfoldable pub merge : Entity → Entity → Entity
merge entity List.[] = entity
merge entity (List.◌∷◌ (name, value) patch) = merge (insert name value entity) patch

abbrev pub written : Mode → Entity → Entity → Entity
written merges entity patch = merge entity patch
written replaces entity patch = patch

pub record TableClient : Type 1 where
  pub State : Type 0
  pub create_entity : State → Entity → Outcome {0, 0} TableError Unit × State
  pub get_entity : State → String → Outcome TableError Row
  -- The condition is that the row still has the given ETag.
  pub update_entity : State → Mode → Entity → Option String → Outcome {0, 0} TableError Unit × State
  pub delete_entity : State → String → Outcome {0, 0} TableError Unit × State
  -- The rows with a status, or all; and the names that are selected, or all.
  pub query_entities : State → Option String → Option (List String) → Outcome TableError (List Row)

-- `entity["etag"]` of a row that carries one there.
abbrev pub entity_etag : Row → Option String
entity_etag row = elim (lookup "etag" row.entity) [ some (text t) ↦ some t | _ ↦ none ]

-- The ETag that is found from the mapping, if there is one, and the entity's own. In
-- `try_acquire_run_lock`, `release_run_lock` and `reset_stale_locks`:
abbrev pub cas_of : Option (Option String) → Option String → Option String
cas_of (some (some tag)) own = some tag
cas_of _ own = own

-- In `renew_run_lock`, where a mapping without one ends the search:
abbrev pub renewal_of : Option (Option String) → Option String → Option String
renewal_of (some found) own = found
renewal_of none own = own

-- In `update`, where an empty text counts as none:
abbrev pub update_of : Option (Option String) → Option String → Option String
update_of (some (some tag)) own = if tag == "" then own else some tag
update_of _ own = own

unfoldable pub cas_etag : Row → Option String
cas_etag row = cas_of row.metadata (entity_etag row)

unfoldable pub renewal_etag : Row → Option String
renewal_etag row = renewal_of row.metadata (entity_etag row)

unfoldable pub update_etag : Row → Option String
update_etag row = update_of row.metadata (entity_etag row)

-- The names that the service keeps for itself: the keys of the row and what it writes.
abbrev pub is_reserved : String → Bool
is_reserved name = is_system name || (name == "PartitionKey" || name == "RowKey")

-- What is in the table, and which version of it.
pub record View (T : TableClient) : Type 1 where
  pub find : T.State → String → Option Entity
  pub version : T.State → String → Option String
  -- The states that the actions of other callers lead to.
  pub Follows : T.State → T.State → Type 0

module _ (T : TableClient) (w : View T) where
  open w use {find, version, Follows}

  -- One row was written and nothing else.
  pub record Wrote (k : String) (mode : Mode) (patch : Entity) (tag : Option String)
      (s s' : T.State) : Type 0 where
    pub old : Entity
    pub etag : String
    pub new : Entity
    pub found : find s k ≡ some old
    pub same_tag : tag ≡ some etag
    pub current : version s k ≡ some etag
    pub stored : find s' k ≡ some new
    pub content :
        (name : String)
        → is_reserved name ≡ false
        → lookup name new ≡ lookup name (written mode old patch)
    pub others : (j : String) → k == j ≡ false → find s' j ≡ find s j

  -- One row was added and nothing else.
  pub record Added (k : String) (e : Entity) (s s' : T.State) : Type 0 where
    pub new : Entity
    pub fresh : find s k ≡ none
    pub stored : find s' k ≡ some new
    pub content : (name : String) → is_reserved name ≡ false → lookup name new ≡ lookup name e
    pub others : (j : String) → k == j ≡ false → find s' j ≡ find s j

  -- One row was removed and nothing else.
  pub record Removed (k : String) (s s' : T.State) : Type 0 where
    pub old : Entity
    pub found : find s k ≡ some old
    pub missing : find s' k ≡ none
    pub others : (j : String) → k == j ≡ false → find s' j ≡ find s j

  -- The documented behaviour of the service: reads return what is there with its ETag, a
  -- conditional write succeeds only on the current version and then writes one row, one that is
  -- refused writes nothing, and an ETag names one version of a row.
  pub record IsTable : Type 0 where
    pub found-get_entity :
        (s : T.State) (k : String) (row : Row)
        → T.get_entity s k ≡ returns row
        → find s k ≡ some row.entity
    pub missing-get_entity :
        (s : T.State) (k : String) → T.get_entity s k ≡ raises not_found → find s k ≡ none
    pub keyed :
        (s : T.State) (k : String) (e : Entity)
        → find s k ≡ some e
        → lookup "RowKey" e ≡ some (text k)
    pub tagged_metadata :
        (s : T.State) (k tag : String) (row : Row)
        → T.get_entity s k ≡ returns row
        → row.metadata ≡ some (some tag)
        → version s k ≡ some tag
    pub tagged_entity :
        (s : T.State) (k tag : String) (row : Row)
        → T.get_entity s k ≡ returns row
        → entity_etag row ≡ some tag
        → version s k ≡ some tag
    pub updated :
        (s s' : T.State) (k : String) (mode : Mode) (patch : Entity) (tag : Option String)
        → lookup "RowKey" patch ≡ some (text k)
        → T.update_entity s mode patch tag ≡ (returns tt, s')
        → Wrote k mode patch tag s s'
    pub created :
        (s s' : T.State) (k : String) (e : Entity)
        → lookup "RowKey" e ≡ some (text k)
        → T.create_entity s e ≡ (returns tt, s')
        → Added k e s s'
    pub deleted :
        (s s' : T.State) (k : String) → T.delete_entity s k ≡ (returns tt, s') → Removed k s s'
    pub lost :
        (s s' : T.State) (mode : Mode) (patch : Entity) (tag : Option String)
        → T.update_entity s mode patch tag ≡ (raises modified, s')
        → s' ≡ s
    pub gone :
        (s s' : T.State) (mode : Mode) (patch : Entity) (tag : Option String)
        → T.update_entity s mode patch tag ≡ (raises not_found, s')
        → s' ≡ s
    pub same_version :
        (s s' : T.State) (k tag : String)
        → Follows s s'
        → version s k ≡ some tag
        → version s' k ≡ some tag
        → find s' k ≡ find s k
    pub acts :
        (s s' : T.State) (mode : Mode) (patch : Entity) (tag : Option String)
        → T.update_entity s mode patch tag ≡ (returns tt, s')
        → Follows s s'
    pub stays : (s : T.State) → Follows s s
    pub goes_on : (s u v : T.State) → Follows s u → Follows u v → Follows s v

  -- A row of a query, as far as its names were selected, with its ETag.
  pub record IsListed (s : T.State) (status : String) (row : Row) : Type 0 where
    pub key : String
    pub whole : Entity
    pub found : find s key ≡ some whole
    pub row_key : lookup "RowKey" row.entity ≡ some (text key)
    pub has_status : lookup "status" whole ≡ some (text status)
    pub updated_at : lookup "updated_at" row.entity ≡ lookup "updated_at" whole
    pub current : (tag : String) → cas_etag row ≡ some tag → version s key ≡ some tag

  abbrev pub AreListed : T.State → String → List Row → Type 0
  AreListed s status List.[] = Unit {0}
  AreListed s status (List.◌∷◌ row rows) = IsListed s status row × AreListed s status rows

  -- The documented behaviour of a query for a status that selects some names.
  abbrev pub IsQuery : Type 0
  IsQuery =
      (s : T.State) (status : String) (names : List String) (rows : List Row)
      → T.query_entities s (some status) (some names) ≡ returns rows
      → AreListed s status rows
