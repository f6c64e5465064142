-- ===== src/Bars.antt =====
-- internal/bars: the bar aggregation service.
pub mod Aggregator
