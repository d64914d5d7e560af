-- ===== src/Noise.antt =====
-- src/internal/protocol/noise: the handshake that begins a session and its protection against floods.
pub mod Mac
pub mod Cookie
pub mod LoadMonitor
pub mod Handshake
pub mod Responder
pub mod Initiator
pub mod Exchange
pub mod Rekey
mod Tests
