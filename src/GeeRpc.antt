-- ===== src/GeeRpc.antt =====
-- geerpc: remote procedure calls, with a registry of servers.
pub mod Discovery
pub mod Registry
pub mod Client
pub mod XClient
pub mod Server
pub mod Handling
pub mod Serving
pub mod Codec
pub mod Exchange
pub mod Upgrade
mod Tests
