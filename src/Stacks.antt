-- ===== src/Stacks.antt =====
-- The stacks (tembo-stacks/src): what the applications of an instance add to its configuration.
pub mod Apps
mod Tests
