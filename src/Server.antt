-- ===== src/Server.antt =====
-- src/internal/server: what the server keeps for its clients.
pub mod RegistrationQueue
pub mod Peer
pub mod Udp
pub mod Registrar
pub mod Repository
pub mod State
mod Samples
mod Tests
