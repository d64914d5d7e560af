-- ===== src/Transport.antt =====
-- src/internal/transport/tcp: frames over a byte stream.
pub mod Framing
mod Tests
