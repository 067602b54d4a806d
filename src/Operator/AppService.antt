-- ===== src/Operator/AppService.antt =====
-- The reconciliation of the applications that run beside an instance
-- (tembo-operator/src/app_service).
pub mod EnvVars
pub mod Environment
pub mod Objects
pub mod Routes
pub mod Workload
pub mod Resources
pub mod Calls
pub mod Ingress
pub mod Secret
pub mod Reconcile
mod Samples
mod Tests
