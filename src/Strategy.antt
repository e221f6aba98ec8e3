-- ===== src/Strategy.antt =====
-- control/strategy: routing of work to running plugins and the caching of collected metrics.
pub mod Key
pub mod Cache
pub mod Plugin
pub mod Lru
pub mod Sticky
pub mod ConfigBased
pub mod Pool
mod Samples
