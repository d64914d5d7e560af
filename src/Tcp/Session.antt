-- ===== src/Tcp/Session.antt =====
-- src/internal/protocol/chacha20/tcp/session.go. A method that mutates `*Session` returns the new record
-- beside its result; a slice argument is its bytes, and its capacity where that is read.
pub mod Step
pub mod Stream
use tun_go.Base.{
  ℕ, ◌+◌, List, [], Bool, Option, none, some, ltb, if◌then◌else◌, Bytes, length, replicate, Result,
  ok, err, insufficient_capacity, bad_key_size, open_failed,
}
use tun_go.Aead.{Aead, nonce_size, overhead}
use tun_go.Core.{
  aad_buf, create_aad, zero_bytes, direction_client_to_server, direction_server_to_client,
}
use tun_go.Nonce
use tun_go.Nonce.{Nonce, new_nonce, increment, peek_encode, encode}

pub record Session (Cipher : Type 0) : Type 0 where
  pub send_cipher : Cipher
  pub recv_cipher : Cipher
  pub send_nonce : Nonce
  pub recv_nonce : Nonce
  pub is_server : Bool
  pub session_id : Bytes  -- [32]byte
  pub encryption_aad_buf : Bytes  -- [60]byte
  pub decryption_aad_buf : Bytes  -- [60]byte
  pub encryption_nonce_buf : Bytes  -- [12]byte
  pub decryption_nonce_buf : Bytes  -- [12]byte

unfoldable pub new_session_with_ciphers :
    {Cipher : Type 0} → Bytes → Cipher → Cipher → Bool → ℕ → Session Cipher
new_session_with_ciphers id send recv is_server epoch = record {
  session_id = id;
  send_cipher = send;
  recv_cipher = recv;
  recv_nonce = new_nonce epoch;
  send_nonce = new_nonce epoch;
  is_server = is_server;
  encryption_nonce_buf = replicate nonce_size 0;
  decryption_nonce_buf = replicate nonce_size 0;
  encryption_aad_buf =
      if is_server
      then aad_buf id direction_server_to_client
      else aad_buf id direction_client_to_server;
  decryption_aad_buf =
      if is_server
      then aad_buf id direction_client_to_server
      else aad_buf id direction_server_to_client;
}

module _ {Cipher : Type 0} (a : Aead Cipher) where
  unfoldable pub new_session : Bytes → Bytes → Bytes → Bool → Result (Session Cipher)
  new_session id send_key recv_key is_server = elim (a.new send_key) [
    | none ↦ err bad_key_size
    | some send ↦ elim (a.new recv_key) [
      | none ↦ err bad_key_size
      | some recv ↦ ok (new_session_with_ciphers id send recv is_server 0)
    ]
  ]

  -- `cap` is the capacity of the slice `plaintext`, which is encrypted in place.
  unfoldable pub encrypt : Session Cipher → ℕ → Bytes → Session Cipher × Result Bytes
  encrypt s cap plaintext =
      if ltb cap (length plaintext + overhead)
      then (s, err insufficient_capacity)
      else elim (increment s.send_nonce) [
        | err e ↦ (s, err e)
        | ok n ↦
            let nonce_bytes = encode n s.encryption_nonce_buf in
            let aad = create_aad nonce_bytes s.encryption_aad_buf in
            (
              record s {
                send_nonce = n;
                encryption_nonce_buf = nonce_bytes;
                encryption_aad_buf = aad;
              },
              ok (a.seal s.send_cipher nonce_bytes plaintext aad),
            )
      ]

  -- `_ = s.RecvNonce.Increment()`
  unfoldable pub commit_nonce : Session Cipher → Session Cipher
  commit_nonce s = elim (increment s.recv_nonce) [ err e ↦ s | ok n ↦ record s { recv_nonce = n } ]

  -- After the peek: `Open` under the next nonce, and its commit if that succeeds.
  unfoldable pub open_with : Session Cipher → Bytes → Bytes → Session Cipher × Result Bytes
  open_with s nonce_bytes ciphertext =
      let aad = create_aad nonce_bytes s.decryption_aad_buf in
      let tried = record s { decryption_nonce_buf = nonce_bytes; decryption_aad_buf = aad } in
      elim (a.unseal s.recv_cipher nonce_bytes ciphertext aad) [
        | none ↦ (tried, err open_failed)
        | some plaintext ↦ (commit_nonce tried, ok plaintext)
      ]

  unfoldable pub decrypt : Session Cipher → Bytes → Session Cipher × Result Bytes
  decrypt s ciphertext = elim (peek_encode s.recv_nonce s.decryption_nonce_buf) [
    | err e ↦ (s, err e)
    | ok nonce_bytes ↦ open_with s nonce_bytes ciphertext
  ]

unfoldable pub zeroize : {Cipher : Type 0} → Session Cipher → Session Cipher
zeroize s = record s {
  session_id = zero_bytes s.session_id;
  encryption_aad_buf = zero_bytes s.encryption_aad_buf;
  decryption_aad_buf = zero_bytes s.decryption_aad_buf;
  encryption_nonce_buf = zero_bytes s.encryption_nonce_buf;
  decryption_nonce_buf = zero_bytes s.decryption_nonce_buf;
  send_nonce = Nonce.zeroize s.send_nonce;
  recv_nonce = Nonce.zeroize s.recv_nonce;
}
