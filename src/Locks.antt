-- ===== src/Locks.antt =====
-- The lock backends of src/azure_functions_langgraph/locks.
pub mod InProcess
pub mod AzureBlob
pub mod Guard
