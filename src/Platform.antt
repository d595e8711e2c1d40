-- ===== src/Platform.antt =====
-- The Platform API layer of src/azure_functions_langgraph/platform.
pub mod Threads
pub mod Stores
pub mod Renewal
