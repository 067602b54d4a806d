-- ===== src/Operator/Params.antt =====
-- Postgres parameters (tembo-operator/src/apis/postgres_parameters.rs): the values, how two are
-- merged, and how they are written and read.
pub mod Names
pub mod Value
pub mod Wire
pub mod Merge
pub mod Order
mod Tests
