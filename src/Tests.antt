-- ===== src/Tests.antt =====
-- Examples of the theorems, at concrete inputs.
mod Data
mod Scripts
mod Breakers
mod Addresses
mod Requests
mod Servers
mod Configs
mod Replies
mod Clients
mod Scripted
mod Held
mod Shared
mod Outages
