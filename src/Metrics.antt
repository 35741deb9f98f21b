-- ===== src/Metrics.antt =====
-- The metrics of src/MetricsRegistry.cpp and include/common/metrics/MetricsRegistry.h.
pub mod Histogram
pub mod Labels
pub mod Registry
pub mod Render
pub mod Buckets
pub mod Counts
pub mod Reading
pub mod Families
pub mod References
pub mod Lines
pub mod Rendering
mod Tests
