-- ===== src/Config.antt =====
-- src/internal/config: what the program computes from its configuration.
pub mod Addressing
mod Tests
