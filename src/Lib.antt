-- ===== src/Lib.antt =====
-- Verification of azure-functions-langgraph, which serves LangGraph graphs from Azure Functions. Paths
-- are from the repository's root; `pkg` is src/azure_functions_langgraph.
--
-- A graph run that writes checkpoints holds a thread lock of its pair of graph and thread. Locks come
-- from pkg/locks: one for a single worker, one on Azure Blob leases, and a guard that travels in the
-- run's config and lets a checkpoint write ask whether the lock is still owned. Drivers take the lock,
-- start the run, invoke the graph and release: the Service Bus trigger (pkg/triggers) and the durable
-- runs (pkg/durable) are modelled, both through the cancellation-safe adapter pkg/locks/_async.py. The
-- Platform API keeps threads in a store with a run lock of its own: in memory (pkg/platform) or in
-- Azure Table Storage (pkg/stores). pkg/_validation.py checks what clients send, and
-- pkg/authorization.py evaluates the application's policy.
--
-- Files, and what they model:
--   Base          names that the others share: tests, lists, Python's dict as an association list in
--                 insertion order, JSON values, outcomes that return or raise, str.strip.
--   Locks.InProcess   pkg/locks/inprocess.py, class InProcessThreadLock. A heap of _KeyState objects,
--                 a registry of keys, one function per critical section; System has n callers whose
--                 calls interleave, a step per critical section, and the primitive's own lock as the
--                 flag that a step takes.
--   Locks.AzureBlob   pkg/locks/azure_blob.py, class AzureBlobLeaseThreadLock: __init__ (construct),
--                 acquire, release, _renew_all_once, close (in two sections, since it sets _closed
--                 without the guard), _ownership_problem, _blob_name and the two
--                 classifications of errors. The service's answers and what other threads do while a
--                 call is under way are arguments; one round of acquire's polling consumes one of
--                 them, and a list that is too short ends in `polling`.
--   Locks.Guard   pkg/locks/guard.py: ownership_guard_for, config_with_ownership_guard,
--                 guard_run_config, resolve_ownership_guard. What bind_ownership_guard bound is an
--                 argument.
--   Runs          Effects is a call that logs what it does and returns or raises. AsyncLock is
--                 pkg/locks/_async.py; a Wait says how many cancellations arrive before a worker is
--                 done, so its loop runs that often. Guarded is the body that the drivers share,
--                 ServiceBus is pkg/triggers/service_bus.py, Observer counts the observer's events.
--   Durable       State is pkg/durable/_state.py, Lifecycle pkg/durable/_lifecycle.py, Activity
--                 pkg/durable/_activity.py. The Durable client, the graph and its encoding are
--                 parameters, and so are Python's str and dict on other values than texts and
--                 mappings in a request.
--   Platform      Threads is the part of pkg/platform/contracts.py that the store keeps, Stores the
--                 class InMemoryThreadStore of pkg/platform/stores.py. Its reentrant lock makes each
--                 operation atomic, so a history is a list of calls. Times are numbers of seconds.
--                 Renewal is pkg/platform/_store_renewal.py, the worker that renews a run's lock.
--   Tables        pkg/stores: Json is _table_json.py, the rest AzureTableThreadStore of azure_table.py.
--                 Threads is _thread_to_entity and _entity_to_thread, Requests what the methods send,
--                 Store the methods, Sweep reset_stale_locks, Queries search and count. The table
--                 service is a record of methods over a state that is a parameter, with its documented
--                 behaviour as a record of laws (Service); Journal is an example that keeps them. A
--                 method is given, for each attempt, what other callers do before its read and before
--                 its write. The JSON codec of each field is a parameter, and so is that it is
--                 lossless; a time is a number of seconds.
--   Authorization pkg/authorization.py, pkg/_run_authorization.py, pkg/streaming_authorization.py: the
--                 evaluation of a policy, which is a function of a context that is a parameter.
--   Validation    pkg/_validation.py, on texts as lists of code points and on JSON values.
-- A module named Tests holds concrete inputs.
--
-- Bounds: all numbers are natural numbers, as Python's are unbounded; lease durations and limits that
-- may be negative are integers. The three attempts of pkg/stores/azure_table.py are a count that goes
-- down to 0, as in its loops. Two helpers recurse on fuel: the slices of a text on its length, which
-- is enough since every slice takes a character, and `str` of a number on the number itself, which is
-- enough since a division by ten makes it smaller.
--
-- Not modelled: logging and the messages of exceptions beyond their kind, which nothing depends on;
-- pkg/app.py, the HTTP routes, the native handlers and streaming, which are mostly calls of Azure
-- Functions around the components above; the checkpoint savers, which extend a class of LangGraph;
-- the factories of pkg/stores/azure_table.py, which import the Azure SDK; observability exporters and
-- the OpenAPI bridge, which format what others computed. The Azure SDK, LangGraph, Durable Functions
-- and pydantic are outside the repository. In Durable a value of another type than the declared one
-- stops `from_dict` of the model.
mod Base
pub mod Locks
pub mod Validation
pub mod Platform
pub mod Runs
pub mod Tables
pub mod Durable
pub mod Authorization
