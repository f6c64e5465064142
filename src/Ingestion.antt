-- ===== src/Ingestion.antt =====
-- internal/data: the ingestion of market data.
pub mod Normalizer
