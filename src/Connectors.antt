-- ===== src/Connectors.antt =====
-- Calls to the vendors: their errors, the circuit breaker and the client that retries.
pub mod Errors
pub mod Health
pub mod Outbound
pub mod Webhook
