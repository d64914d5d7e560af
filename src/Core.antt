-- ===== src/Core.antt =====
-- What the TCP and UDP sessions share: src/internal/protocol/chacha20/internal/core (constants.go,
-- directions.go), src/internal/protocol/securemem/zero.go, and the additional data of a packet, which
-- both session.go files build by the same code.
pub mod AadLaws
use tun_go.Base.{ℕ, ◌+◌, List, [], ◌∷◌, Bytes, take, replicate, copy_at, map}
use tun_go.Aead.{nonce_size}

-- The highest epoch that is ever allocated.
abbrev pub max_epoch : ℕ
max_epoch = 65000

abbrev pub session_identifier_length : ℕ
session_identifier_length = 32

abbrev pub direction_length : ℕ
direction_length = 16

abbrev pub aad_length : ℕ
aad_length = session_identifier_length + nonce_size + direction_length

-- src/internal/protocol/chacha20/internal/core/directions.go: "client-to-server"
abbrev pub direction_client_to_server : Bytes
direction_client_to_server =
    b'c' ∷ b'l' ∷ b'i' ∷ b'e' ∷ b'n' ∷ b't' ∷ b'-' ∷ b't' ∷ b'o' ∷ b'-' ∷ b's' ∷ b'e' ∷ b'r' ∷ b'v'
    ∷ b'e' ∷ b'r' ∷ []

-- "server-to-client"
abbrev pub direction_server_to_client : Bytes
direction_server_to_client =
    b's' ∷ b'e' ∷ b'r' ∷ b'v' ∷ b'e' ∷ b'r' ∷ b'-' ∷ b't' ∷ b'o' ∷ b'-' ∷ b'c' ∷ b'l' ∷ b'i' ∷ b'e'
    ∷ b'n' ∷ b't' ∷ []

-- A fresh buffer with the session id and the direction copied in.
unfoldable pub aad_buf : Bytes → Bytes → Bytes
aad_buf id direction =
    copy_at session_identifier_length direction (copy_at 0 id (replicate aad_length 0))

-- The nonce behind the prefix of a 60-byte buffer; the direction argument is not used.
unfoldable pub create_aad : Bytes → Bytes → Bytes
create_aad nonce aad =
    take aad_length (copy_at (session_identifier_length + direction_length) nonce aad)

-- `ZeroBytes` of src/internal/protocol/securemem/zero.go: the slice afterwards.
unfoldable pub zero_bytes : Bytes → Bytes
zero_bytes b = map (λ _. 0) b
