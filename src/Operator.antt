-- ===== src/Operator.antt =====
-- The operator (tembo-operator/src): the reconciler of CoreDb resources.
pub mod Params
pub mod Types
pub mod Spec
pub mod Extensions
pub mod Api
pub mod Patches
pub mod Hibernation
pub mod Retention
pub mod Controller
pub mod Cnpg
pub mod Registry
pub mod AppService
