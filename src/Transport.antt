-- ===== src/Transport.antt =====
-- internal/transport: what stands between the network and the business processes.
pub mod Maps
pub mod Limits
pub mod Guards
pub mod Protocol
pub mod Hub
pub mod Sessions
pub mod Http
