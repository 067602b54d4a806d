-- ===== src/Operator/Cnpg.antt =====
-- The CloudNativePG cluster of an instance (tembo-operator/src/cloudnativepg/cnpg.rs).
pub mod Postgres
pub mod Credentials
pub mod ObjectStore
pub mod Build
pub mod Fencing
pub mod Reconcile
pub mod Schedule
pub mod Unfence
mod Tests
