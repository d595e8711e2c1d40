-- ===== src/Tables/Service/Journal/Listing.antt =====
-- The queries of the journal list the rows of a status with their ETags.
use azure_functions_langgrap.Base.{
  String, true, Option, none, some, List, [], ◌∷◌, string_eq, ◌≡◌, refl, ap, arith, Bool-cases, inl,
  inr, Option-cases, ==_iff, returns-injective,
}
use mathlib.Core.Path.{subst}
use azure_functions_langgrap.Base.Dict.{lookup}
use azure_functions_langgrap.Tables.{
  Property, text, binary, boolean, integer, decimal, time, nothing, other, Entity,
}
use azure_functions_langgrap.Tables.Service.{AreListed, IsListed, IsQuery, Row, cas_etag}
use azure_functions_langgrap.Tables.Service.Journal.{
  Journal, content, version, is_status, rows_under, keys, journal_client,
}
use azure_functions_langgrap.Tables.Service.Journal.Content.{journal_view, content-RowKey}

has_status :
    (status : String) (found : Option Property)
    → is_status status found ≡ true
    → found ≡ some (text status)
has_status status none h = absurd (ground arith)
has_status status (some (text t)) h = ap (λ (x : String). some (text x)) ((==_iff t status).0 h)
has_status status (some (binary b)) h = absurd (ground arith)
has_status status (some (boolean b)) h = absurd (ground arith)
has_status status (some (integer n)) h = absurd (ground arith)
has_status status (some (decimal x)) h = absurd (ground arith)
has_status status (some (time t)) h = absurd (ground arith)
has_status status (some nothing) h = absurd (ground arith)
has_status status (some (other x)) h = absurd (ground arith)

row_of : Journal → String → Entity → Row
row_of s k e = record { entity = e; metadata = some (version s k) }

row_of-IsListed :
    (s : Journal) (status k : String) (e : Entity)
    → content s k ≡ some e
    → is_status status (lookup "status" e) ≡ true
    → IsListed journal_client journal_view s status (row_of s k e)
unfolding row_of cas_etag version
row_of-IsListed s status k e there right = record {
  key = k;
  whole = e;
  found = there;
  row_key = content-RowKey s k e there;
  has_status = has_status status (lookup "status" e) right;
  updated_at = refl;
  current = λ tag h. ground (arith, there, h);
}

rows_under-AreListed :
    (s : Journal) (status : String) (ks : List String)
    → AreListed journal_client journal_view s status (rows_under s status ks)
unfolding rows_under row_of
rows_under-AreListed s status [] = tt
rows_under-AreListed s status (k ∷ ks) = elim (Option-cases (content s k)) [
  | inl missing ↦ rw (rows_under, missing) (rows_under-AreListed s status ks)
  | inr (e, there) ↦ elim (Bool-cases (is_status status (lookup "status" e))) [
    | inl right ↦
        rw (rows_under, there, right)
          (row_of-IsListed s status k e there right, rows_under-AreListed s status ks)
    | inr wrong ↦ rw (rows_under, there, wrong) (rows_under-AreListed s status ks)
  ]
]

pub journal-IsQuery : IsQuery journal_client journal_view
journal-IsQuery s status names rows h =
    subst (λ x. AreListed journal_client journal_view s status x) (returns-injective _ rows h)
      (rows_under-AreListed s status (keys s))
