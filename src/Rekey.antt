-- ===== src/Rekey.antt =====
-- Key rotation: src/internal/protocol/chacha20/rekey (the control plane of one end) and
-- src/internal/protocol/rekey (the exchange of rekey packets).
pub mod StateMachine
pub mod Manager
pub mod Server
pub mod Client
pub mod Agreement
mod Tests
