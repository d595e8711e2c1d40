-- ===== src/Durable.antt =====
-- durable/: runs that outlive the request that starts them. State has the payload and the result
-- that Durable carries, Lifecycle the HTTP control plane, Activity the run itself.
pub mod State
pub mod Lifecycle
pub mod Activity
