-- ===== src/Policy.antt =====
-- packages/policy: the policy representation, its compiler, and the shares that it pays out.
pub mod Assets
pub mod Schema
pub mod Canonical
pub mod Commitment
pub mod Compile
pub mod Shares
pub mod TeeInfo
pub mod Payments
pub mod Templates
pub mod Ecies
pub mod Tests
