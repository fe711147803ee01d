-- ===== src/Redis.antt =====
-- internal/redis: the client with its pool, the scripts that it runs, and the circuit breaker.
pub mod Breaker
pub mod Options
pub mod Value
pub mod Resp
pub mod Network
pub mod Tls
pub mod Client
pub mod Script
