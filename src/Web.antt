-- ===== src/Web.antt =====
-- apps/web/lib: the web application's logic, without its views.
pub mod Chain
pub mod Thrown
pub mod Vault
pub mod Enclave
pub mod StorePolicy
pub mod Steps
pub mod TriggerSetup
pub mod Transactions
pub mod Deploy
pub mod Tests
pub mod Triggers
pub mod Durations
pub mod Canvas
pub mod Inspector
pub mod Recipients
pub mod Form
pub mod Amounts
pub mod Policies
pub mod InfoRoute
pub mod Wallet
pub mod Monitor
pub mod Studio
pub mod Display
