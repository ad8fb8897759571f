-- ===== src/Metrics.antt =====
-- The metrics of src/manga_gateway/metrics: the rollups in memory and the events on disk.
mod Tests
pub mod Event
pub mod Rollups
pub mod Ring
pub mod Collector
