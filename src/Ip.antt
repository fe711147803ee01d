-- ===== src/Ip.antt =====
-- internal/ip: addresses, the checker of trusted networks, and the strategies that derive a
-- client's address from a request.
pub mod Net
pub mod Checker
pub mod Strategy
pub mod TrustedProxy
pub mod Subnet
pub mod Interface
