-- ===== src/Conductor.antt =====
-- The conductor: reads events of the control plane from a queue, applies them to the cluster, and
-- answers (conductor/src).
pub mod Types
pub mod Round
pub mod Cloud
pub mod Environment
pub mod Events
pub mod Lacks
pub mod Handlers
pub mod Archives
pub mod Untouched
pub mod Recorded
pub mod Closing
pub mod Storage
pub mod Library
pub mod Aws
pub mod Gcp
mod Tests
