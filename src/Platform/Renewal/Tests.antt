-- ===== src/Platform/Renewal/Tests.antt =====
-- A run whose worker wakes up twice while others call the store.
use azure_functions_langgrap.Base.{
  ℕ, String, true, false, none, some, List, [], ◌∷◌, string_eq, ◌≡◌, refl, map,
}
use azure_functions_langgrap.Base.Dict.{lookup}
use azure_functions_langgrap.Platform.Threads.{Thread, idle, status_eq}
use azure_functions_langgrap.Platform.Stores.{Store, new_thread, locked}
use azure_functions_langgrap.Platform.Stores.Runs.{Call, acquires, releases}
use azure_functions_langgrap.Platform.Stores.RunLock.{Holds}
use azure_functions_langgrap.Platform.Renewal.{
  Renewals, stop_timed_out, worker, set_failure, stop_store_renewal,
}
use azure_functions_langgrap.Platform.Renewal.InMemory.{renew, round_of, store_renewal-Holds}

abbrev busy_thread : Thread String
busy_thread = locked 20 "owner" none (new_thread 10 "t1" none)

abbrev one_thread : Store String
one_thread = ("t1", busy_thread) ∷ []

run_Holds : Holds "t1" "owner" one_thread
unfolding lookup
run_Holds = record { thread = busy_thread; current = refl; is_busy = refl; owner = refl }

abbrev two_rounds : List (List (Call String) × ℕ)
two_rounds =
    (acquires 30 "late" "t1" none ∷ [], 40)
    ∷ (releases 50 "t1" idle none (some "stale") ∷ [], 60)
    ∷ []

-- The table after `_start_store_renewal`.
abbrev started : Renewals ℕ
started = ("owner", none) ∷ []

store_renewal_example :
    (let w =
        worker (renew {V = String} {E = ℕ}) "t1" "owner" (map round_of two_rounds) one_thread in
      Holds "t1" "owner" w.1
      × ((stop_store_renewal "owner" false (set_failure "owner" w.0 started)).0 ≡ none)
      × ((stop_store_renewal "owner" true (set_failure "owner" w.0 started)).0
          ≡ some stop_timed_out))
unfolding lookup
store_renewal_example =
    store_renewal-Holds "t1" "owner" two_rounds one_thread started run_Holds refl refl
