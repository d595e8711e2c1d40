-- ===== src/Runs.antt =====
-- What drives a graph outside of the HTTP routes: the thread locks as async callers use them
-- (src/azure_functions_langgraph/locks/_async.py), the Service Bus trigger (triggers/) and the
-- durable runs (durable/).
pub mod Effects
pub mod AsyncLock
pub mod Guarded
pub mod Observer
pub mod ServiceBus
