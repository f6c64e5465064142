-- ===== src/Gateway.antt =====
-- internal/wsgateway: the gateway that passes alerts on to the connections of users.
pub mod Registry
pub mod Connection
pub mod Hub
