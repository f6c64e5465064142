-- ===== src/Models.antt =====
-- internal/models: the data that the services exchange.
pub mod Market
pub mod Rule
pub mod Alert
