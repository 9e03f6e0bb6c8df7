-- ===== src/Orchestrator.antt =====
-- apps/orchestrator/src: the relay between the chain and the enclave.
pub mod Instructions
pub mod Results
pub mod Polling
pub mod Policies
pub mod Tests
