-- ===== src/Extension.antt =====
-- apps/extension/typescript: the extension server that runs beside the enclave's node.
pub mod Encoding
pub mod Framework
pub mod Server
pub mod Handlers
pub mod Tests
pub mod Node
