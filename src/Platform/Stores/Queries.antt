-- ===== src/Platform/Stores/Queries.antt =====
-- `search` and `count` of `InMemoryThreadStore` in platform/stores.py.
pub mod Pages
use azure_functions_langgrap.Base.{
  ℕ, ◌+◌, String, Bool, true, false, not, ◌&&◌, ◌||◌, Option, none, some, List, [], ◌∷◌, ◌==◌,
  string_eq, Eq, if◌then◌else◌, Outcome, returns, raises, filter, all, length, take, drop, leb, ℤ,
  is_negative, to_ℕ,
}
use azure_functions_langgrap.Base.Dict.{Dict, lookup}
use azure_functions_langgrap.Platform.Threads.{Thread, ThreadStatus, status_eq}
use azure_functions_langgrap.Platform.Stores.{Store, StoreError, negative_limit, negative_offset}

abbrev pub has_status : Option ThreadStatus → ThreadStatus → Bool
has_status none s = true
has_status (some wanted) s = s == wanted

module _ {V : Type 0} where
  -- `.values()`
  abbrev pub threads : Store V → List (Thread V)
  threads [] = []
  threads ((id, t) ∷ m) = t ∷ threads m

  -- `results.sort(key=created_at, reverse=True)`: newest first, and stable.
  insert_newest : Thread V → List (Thread V) → List (Thread V)
  insert_newest t [] = t ∷ []
  insert_newest t (u ∷ us) =
      if leb u.created_at t.created_at then t ∷ u ∷ us else u ∷ insert_newest t us

  unfoldable pub newest_first : List (Thread V) → List (Thread V)
  unfolding insert_newest
  newest_first [] = []
  newest_first (t ∷ ts) = insert_newest t (newest_first ts)

module _ {V : Type 0} ⦃e : Eq V⦄ where
  -- `k in thread.metadata and thread.metadata[k] == v`
  abbrev pub has_entry : Dict String V → String × V → Bool
  has_entry m (k, v) = elim (lookup k m) [ none ↦ false | some w ↦ w == v ]

  abbrev pub has_metadata : Option (Dict String V) → Option (Dict String V) → Bool
  has_metadata none held = true
  has_metadata (some wanted) none = false
  has_metadata (some wanted) (some held) = all (has_entry held) wanted

  abbrev pub matches : Option (Dict String V) → Option ThreadStatus → Thread V → Bool
  matches metadata status t = has_status status t.status && has_metadata metadata t.metadata

  -- `_filtered_threads`
  unfoldable pub filtered_threads :
      Option (Dict String V) → Option ThreadStatus → Store V → List (Thread V)
  filtered_threads metadata status m = filter (matches metadata status) (threads m)

  -- `search`
  unfoldable pub search_threads :
      Option (Dict String V)
      → Option ThreadStatus
      → ℤ
      → ℤ
      → Store V
      → Outcome StoreError (List (Thread V))
  search_threads metadata status limit offset m =
      if is_negative limit
      then raises negative_limit
      else if is_negative offset
      then raises negative_offset
      else returns (
          take (drop (newest_first (filtered_threads metadata status m)) (to_ℕ offset))
            (to_ℕ limit))

  -- `count`
  unfoldable pub count : Option (Dict String V) → Option ThreadStatus → Store V → ℕ
  count metadata status m = length (filtered_threads metadata status m)
