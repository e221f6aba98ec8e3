-- ===== src/Catalog.antt =====
-- control/metrics.go and control/mttrie.go: the catalog of the metrics that the loaded plugins
-- offer.
pub mod Tuples
pub mod Trie
pub mod Metrics
mod Samples
