-- ===== src/Policy.antt =====
-- control/plugin/cpolicy: what a plugin demands of its configuration.
pub mod IntRule
pub mod Rules
pub mod Node
mod Samples
