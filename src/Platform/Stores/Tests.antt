-- ===== src/Platform/Stores/Tests.antt =====
-- Runs of InMemoryThreadStore of platform/stores.py; the JSON values are texts.
use mathlib.Core.List.{Perm}
use azure_functions_langgrap.Base.{
  String, filter, take, drop, ◌&&◌, none, some, List, [], ◌∷◌, string_eq, ◌≡◌, ◌≢◌, refl, returns,
  length,
}
use azure_functions_langgrap.Base.Dict.{lookup}
use azure_functions_langgrap.Platform.Threads.{Thread, idle, busy, status_eq}
use azure_functions_langgrap.Platform.Stores.{Store, try_acquire_run_lock, new_thread, locked}
use azure_functions_langgrap.Platform.Stores.Runs.{Call, creates, acquires, releases, renews, run}
use azure_functions_langgrap.Platform.Stores.RunLock.{Holds, run-excludes}
use azure_functions_langgrap.Platform.Stores.Invariant.{IsValid, run-IsValid}
use azure_functions_langgrap.Platform.Stores.Queries.{
  filtered_threads, search_threads, count, has_status, has_metadata, threads, newest_first,
}
use azure_functions_langgrap.Platform.Stores.Queries.Pages.{NewestFirst, search_threads-slice}

abbrev first : Thread String
first = new_thread 10 "t1" none

abbrev owned : Thread String
owned = locked 20 "owner" (some "agent") first

abbrev store : Store String
store = ("t1", owned) ∷ ("t2", new_thread 11 "t2" none) ∷ []

owner_Holds : Holds "t1" "owner" store
unfolding lookup
owner_Holds = record { thread = owned; current = refl; is_busy = refl; owner = refl }

-- A stale release, a renewal by the owner and another caller's attempt.
abbrev others : List (Call String)
others =
    releases 30 "t1" idle none (some "stale")
    ∷ renews 31 "t1" "owner"
    ∷ acquires 32 "late" "t1" none
    ∷ []

run-excludes_example :
    ((t : Thread String)
      → (try_acquire_run_lock 40 "next" "t1" none (run others store)).0 ≢ returns (some t))
    × ((try_acquire_run_lock 40 "next" "t1" none (run others store)).1 ≡ run others store)
run-excludes_example = run-excludes "t1" "owner" others store owner_Holds refl 40 "next" none

abbrev fresh : Store String
fresh = ("t1", first) ∷ []

run-IsValid_example :
    IsValid (run {V = String} (creates 1 "t1" none ∷ acquires 2 "owner" "t1" none ∷ []) [])
run-IsValid_example = run-IsValid (creates 1 "t1" none ∷ acquires 2 "owner" "t1" none ∷ [])

-- The first page of the busy threads.
search_threads-slice_example :
    (full : List (Thread String)) × Perm full (
      filter (λ t. has_status (some busy) t.status && has_metadata none t.metadata) (threads store))
    × NewestFirst full
    × (◌≡◌ {A = List (Thread String)} (owned ∷ []) (take (drop full 0) 1))
    × (count none (some busy) store ≡ length full)
unfolding search_threads filtered_threads newest_first
search_threads-slice_example = search_threads-slice none (some busy) store 1 0 (owned ∷ []) refl
