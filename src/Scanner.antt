-- ===== src/Scanner.antt =====
-- internal/scanner: the scanner worker.
pub mod Cooldown
pub mod Partitioning
pub mod Session
pub mod State
pub mod Snapshot
pub mod MetricCache
pub mod Emitter
pub mod ScanLoop
