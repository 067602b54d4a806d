-- ===== src/Operator/Extensions.antt =====
-- Extensions of an instance (tembo-operator/src/extensions): what the status says of them, which
-- are to be switched, and which packages are to be installed.
pub mod Status
pub mod Merge
pub mod Trunk
pub mod Install
pub mod Toggle
mod Tests
