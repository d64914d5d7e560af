-- ===== src/Tcp.antt =====
-- src/internal/protocol/chacha20/tcp: the sessions and epochs of a TCP tunnel.
pub mod Session
pub mod Crypto
mod Tests
