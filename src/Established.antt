-- ===== src/Established.antt =====
-- src/internal/protocol/chacha20: aead.go and the two from_handshake.go, which make a data plane and
-- its rekey controller from what a finished handshake hands over.
pub mod Delivery
mod Tests
use tun_go.Base.{
  ℕ, Bool, true, false, Option, none, some, ◌==◌, ◌&&◌, if◌then◌else◌, Bytes, length, Result, ok,
  err, bad_key_size,
}
use tun_go.Aead.{Aead, key_size}
use tun_go.Core.{zero_bytes}
use tun_go.Udp.Crypto as UdpCrypto
use tun_go.Tcp.Crypto as TcpCrypto
use tun_go.Rekey.StateMachine.{StateMachine, new_state_machine}
use tun_go.Noise.Handshake.{IkHandshake}

-- `ID`, `KeyClientToServer` and `KeyServerToClient`
pub record KeyMaterial : Type 0 where
  pub id : Bytes
  pub client_to_server : Bytes
  pub server_to_client : Bytes

-- An `IKHandshake` as one: `ID`, `KeyClientToServer` and `KeyServerToClient` read its fields.
unfoldable pub key_material : {HS : Type 0} → IkHandshake HS → KeyMaterial
key_material h = record {
  id = h.id;
  client_to_server = h.client_key;
  server_to_client = h.server_key;
}

-- The handshake's keys are zeroed through the slices that it handed out.
unfoldable pub zeroed : KeyMaterial → KeyMaterial
zeroed h = record h {
  client_to_server = zero_bytes h.client_to_server;
  server_to_client = zero_bytes h.server_to_client;
}

module _ {Cipher : Type 0} (a : Aead Cipher) where
  -- `chacha20poly1305.New` twice.
  unfoldable pub new_ciphers : Bytes → Bytes → Result (Cipher × Cipher)
  new_ciphers send_key recv_key = elim (a.new send_key) [
    | none ↦ err bad_key_size
    | some send ↦ elim (a.new recv_key) [ none ↦ err bad_key_size | some recv ↦ ok (send, recv) ]
  ]

  unfoldable pub new_aeads_from_handshake : KeyMaterial → Bool → Result (Cipher × Cipher)
  unfolding new_ciphers
  new_aeads_from_handshake h is_server =
      if length h.client_to_server == key_size && length h.server_to_client == key_size
      then (if is_server
          then new_ciphers h.server_to_client h.client_to_server
          else new_ciphers h.client_to_server h.server_to_client)
      else err bad_key_size

  unfoldable pub udp_from_handshake :
      KeyMaterial
      → Bool
      → KeyMaterial × Result (UdpCrypto.Crypto Cipher × StateMachine (UdpCrypto.Crypto Cipher))
  unfolding new_aeads_from_handshake zeroed
  udp_from_handshake h is_server = elim (new_aeads_from_handshake h is_server) [
    | err e ↦ (h, err e)
    | ok ciphers ↦
        (let core = UdpCrypto.new_crypto h.id ciphers.0 ciphers.1 is_server in
          (zeroed h, ok (core, new_state_machine core h.client_to_server h.server_to_client)))
  ]

  unfoldable pub tcp_from_handshake :
      KeyMaterial
      → Bool
      → KeyMaterial × Result (TcpCrypto.Crypto Cipher × StateMachine (TcpCrypto.Crypto Cipher))
  unfolding new_aeads_from_handshake zeroed
  tcp_from_handshake h is_server = elim (new_aeads_from_handshake h is_server) [
    | err e ↦ (h, err e)
    | ok ciphers ↦
        (let core = TcpCrypto.new_crypto h.id ciphers.0 ciphers.1 is_server in
          (zeroed h, ok (core, new_state_machine core h.client_to_server h.server_to_client)))
  ]
