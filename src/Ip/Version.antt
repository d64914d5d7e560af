-- ===== src/Ip/Version.antt =====
-- src/internal/protocol/ip/version.go: the version of an IP packet, a byte.
use tun_go.Base.{ℕ, ◌≡◌, ◌↔◌, ◌||◌, ◌==◌, true, Bool, Option, none, some, if◌then◌else◌, arith}

abbrev pub Version : Type 0
Version = ℕ

unfoldable pub valid : Version → Bool
valid v = v == 4 || v == 6

-- `FromByte`, which fails on any other byte.
unfoldable pub from_byte : ℕ → Option Version
from_byte b = if b == 4 then some 4 else if b == 6 then some 6 else none

unfoldable pub byte : Version → ℕ
byte v = v

-- The supported versions are those that come back from their byte.
pub from_byte-byte_iff : (v : Version) → (from_byte (byte v) ≡ some v) ↔ (valid v ≡ true)
unfolding from_byte byte valid
from_byte-byte_iff v = (λ e. ground (arith, e), λ e. ground (arith, e))
