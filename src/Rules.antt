-- ===== src/Rules.antt =====
-- internal/rules: validation, evaluation and storage of rules.
pub mod Error
pub mod Filters
pub mod Validation
pub mod Resolver
pub mod Compiler
pub mod Store
pub mod Extraction
pub mod Enrichment
pub mod Parser
