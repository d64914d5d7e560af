-- ===== src/Udp.antt =====
-- src/internal/protocol/chacha20/udp: sessions with replay protection, the epoch ring, and the packet
-- codec over both.
pub mod Session
pub mod Ring
pub mod Crypto
mod Tests
