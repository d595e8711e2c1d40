-- ===== src/Tables/Store/Writes.antt =====
-- How an entity reads after the writes of `update` and `release_run_lock` of
-- stores/azure_table.py: plain properties, and JSON fields if they are given.
use azure_functions_langgrap.Base.{
  String, Bool, true, Option, none, some, or_else, [], ◌==◌, string_eq, ◌≡◌, refl, ◌∙◌, ap, sym,
  arith, returns, filter, if◌then◌else◌, >>=-returns, returns-injective,
}
use azure_functions_langgrap.Base.Dict.{lookup, insert, lookup-insert, lookup-filter_key}
use azure_functions_langgrap.Base.Text.Slices.{◌+++◌, diverge}
use azure_functions_langgrap.Platform.Stores.{some_or}
use azure_functions_langgrap.Tables.{Property, text, Entity}
use azure_functions_langgrap.Tables.Json.{
  Codec, IsLossless, read_json, write_json, put_encoded, validate_entity, property_bytes,
}
use azure_functions_langgrap.Tables.Json.Names.{ne_field, IsField}
use azure_functions_langgrap.Tables.Json.Agree.{Agree, read_json-Agree, put_encoded-Agree}
use azure_functions_langgrap.Tables.Json.RoundTrip.{read_json-write_json}
use azure_functions_langgrap.Tables.Threads.{
  Codecs, read_status, read_text, read_time, put_some, write_some, write_given,
}
use azure_functions_langgrap.Tables.Threads.Decodes.{Decodes}
use azure_functions_langgrap.Platform.Threads.{Thread}
use azure_functions_langgrap.Tables.Service.Merge.{IsFree, is_reserved-field}
use azure_functions_langgrap.Tables.Store.Patches.{Stores, json_IsFree}

pub insert-Agree :
    (field name : String) (v : Property) (e : Entity)
    → diverge field name ≡ true
    → Agree field (insert name v e) e
insert-Agree field name v e apart x = rw (lookup-insert, ne_field name field x apart) refl

pub put_some-Agree :
    (field name : String) (v : Option Property) (e : Entity)
    → diverge field name ≡ true
    → Agree field (put_some name v e) e
put_some-Agree field name none e apart x = refl
put_some-Agree field name (some v) e apart x = insert-Agree field name v e apart x

pub filter-Agree :
    (field : String) (keep : String → Bool) (e : Entity)
    → ((x : String) → keep (field +++ x) ≡ true)
    → Agree field (filter (λ entry. keep entry.0) e) e
filter-Agree field keep e kept x = lookup-filter_key keep (field +++ x) e ∙ rw (kept x) refl

module _ {A : Type 0} (codec : Codec A) (field : String) (e w : Entity) where
  pub write_given-Agree :
      (value : Option A) (other : String)
      → write_given codec field value e ≡ returns w
      → diverge other field ≡ true
      → Agree other w e
  unfolding write_json
  write_given-Agree none other wrote apart x =
      ap (λ (d : Entity). lookup (other +++ x) d) (sym (returns-injective _ _ wrote))
  write_given-Agree (some value) other wrote apart x =
      let (encoded, dumped, left) =
        >>=-returns (codec.dumps value) (λ t. returns (put_encoded property_bytes field t e)) w
          wrote in
      ap (λ (d : Entity). lookup (other +++ x) d) (sym (returns-injective _ _ left))
      ∙ put_encoded-Agree property_bytes field other encoded e apart x

  -- The field reads as the value that is given, or as before.
  pub write_given-read :
      (value : Option A) (default old : A) (d : Entity)
      → IsLossless codec
      → IsField field
      → write_given codec field value e ≡ returns w
      → Agree field d w
      → validate_entity property_bytes d ≡ returns tt
      → read_json codec field default e ≡ returns old
      → read_json codec field default d ≡ returns (or_else value old)
  write_given-read none default old d lossless own wrote same valid before =
      read_json-Agree codec field default d w same
      ∙ ap (read_json codec field default) (sym (returns-injective _ _ wrote))
      ∙ before
  write_given-read (some value) default old d lossless own wrote same valid before =
      read_json-write_json codec property_bytes field value default e w d lossless own (omega arith)
        wrote same valid

module _ {A : Type 0} (codec : Codec (Option A)) (field : String) (e w : Entity) where
  pub write_some-Agree :
      (value : Option A) (other : String)
      → write_some codec field value e ≡ returns w
      → diverge other field ≡ true
      → Agree other w e
  write_some-Agree none other wrote apart = write_given-Agree codec field e w none other wrote apart
  write_some-Agree (some value) other wrote apart =
      write_given-Agree codec field e w (some (some value)) other wrote apart

  pub write_some-read :
      (value default old : Option A) (d : Entity)
      → IsLossless codec
      → IsField field
      → write_some codec field value e ≡ returns w
      → Agree field d w
      → validate_entity property_bytes d ≡ returns tt
      → read_json codec field default e ≡ returns old
      → read_json codec field default d ≡ returns (some_or value old)
  write_some-read none default old d lossless own wrote same valid before =
      write_given-read codec field e w none default old d lossless own wrote same valid before
  write_some-read (some value) default old d lossless own wrote same valid before =
      write_given-read codec field e w (some (some value)) default old d lossless own wrote same
        valid before

-- What is written as JSON is read back, in the three fields.
pub record AreLossless {V : Type 0} (codecs : Codecs V) : Type 0 where
  pub metadata : IsLossless codecs.metadata
  pub values : IsLossless codecs.values
  pub interrupts : IsLossless codecs.interrupts

-- The stored entity reads as the replacement.
pub stored_json :
    {A : Type 0} (codec : Codec A) (field : String) (default : A) (new r : Entity)
    → IsFree field
    → Stores new r
    → read_json codec field default new ≡ read_json codec field default r
stored_json codec field default new r free stored =
    read_json-Agree codec field default new r
      (λ x. stored (field +++ x) (is_reserved-field field x free))

pub lookup-put_some :
    (name other : String) (v : Option Property) (e : Entity)
    → lookup other (put_some name v e)
      ≡ (if name == other then some_or v (lookup other e) else lookup other e)
lookup-put_some name other none e = ground arith
lookup-put_some name other (some v) e = rw lookup-insert refl

-- The stored entity reads as the thread that the replacement reads as.
pub Decodes-Stores :
    {V : Type 0} (codecs : Codecs V) (e new : Entity) (t : Thread V)
    → Decodes codecs e t
    → Stores new e
    → lookup "RowKey" new ≡ some (text t.thread_id)
    → Decodes codecs new t
Decodes-Stores codecs e new t d stored key = record {
  metadata =
      stored_json codecs.metadata "metadata_json" none new e json_IsFree.0 stored ∙ d.metadata;
  values = stored_json codecs.values "values_json" none new e json_IsFree.1 stored ∙ d.values;
  interrupts =
      stored_json codecs.interrupts "interrupts_json" [] new e json_IsFree.2 stored ∙ d.interrupts;
  thread_id = key;
  created_at = stored "created_at" refl ∙ d.created_at;
  updated_at = stored "updated_at" refl ∙ d.updated_at;
  lock_expires_at = ap read_time (stored "lock_expires_at" refl) ∙ d.lock_expires_at;
  status = ap read_status (stored "status" refl) ∙ d.status;
  assistant_id = ap read_text (stored "assistant_id" refl) ∙ d.assistant_id;
  lock_token = ap read_text (stored "lock_token" refl) ∙ d.lock_token;
}
