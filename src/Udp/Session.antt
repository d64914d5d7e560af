-- ===== src/Udp/Session.antt =====
-- src/internal/protocol/chacha20/udp/session.go. A method that mutates `*Session` returns the new
-- record beside its result; a slice argument is its bytes, and its capacity where that is read.
-- Seal and Open work in place, so the returned bytes are also what the caller's buffer holds.
pub mod Open
pub mod Replay
use tun_go.Base.{
  ℕ, ◌+◌, List, [], ◌∷◌, ◌++◌, Bool, Option, none, some, ltb, if◌then◌else◌, Bytes, length, take,
  drop, replicate, be, copy_at, Result, ok, err, Error, insufficient_capacity, buffer_too_short,
  cipher_too_short, bad_key_size, open_failed, map,
}
use tun_go.Aead.{Aead, nonce_size, overhead}
use tun_go.Core.{
  aad_buf, create_aad, zero_bytes, direction_client_to_server, direction_server_to_client,
}
use tun_go.Nonce
use tun_go.Nonce.{Nonce, new_nonce, increment, encode}
use tun_go.Window
use tun_go.Window.{SlidingWindow, new_sliding_window, check, accept}

pub record Session (Cipher : Type 0) : Type 0 where
  pub session_id : Bytes  -- [32]byte
  pub send_cipher : Cipher
  pub recv_cipher : Cipher
  pub nonce : Nonce
  pub is_server : Bool
  pub nonce_validator : SlidingWindow
  pub epoch : ℕ  -- uint16
  pub encryption_aad_buf : Bytes  -- [60]byte
  pub decryption_aad_buf : Bytes  -- [60]byte

unfoldable pub new_session_with_ciphers :
    {Cipher : Type 0} → Bytes → Cipher → Cipher → Bool → ℕ → Session Cipher
new_session_with_ciphers id send recv is_server epoch = record {
  session_id = id;
  send_cipher = send;
  recv_cipher = recv;
  nonce = new_nonce epoch;
  is_server = is_server;
  epoch = epoch;
  nonce_validator = new_sliding_window;
  encryption_aad_buf =
      if is_server
      then aad_buf id direction_server_to_client
      else aad_buf id direction_client_to_server;
  decryption_aad_buf =
      if is_server
      then aad_buf id direction_client_to_server
      else aad_buf id direction_server_to_client;
}

module _ {Cipher : Type 0} (a : Aead Cipher) where
  unfoldable pub new_session : Bytes → Bytes → Bytes → Bool → ℕ → Result (Session Cipher)
  new_session id send_key recv_key is_server epoch = elim (a.new send_key) [
    | none ↦ err bad_key_size
    | some send ↦ elim (a.new recv_key) [
      | none ↦ err bad_key_size
      | some recv ↦ ok (new_session_with_ciphers id send recv is_server epoch)
    ]
  ]

  -- After the guards: `Seal` under the incremented nonce `n`.
  unfoldable pub seal_with : Session Cipher → Nonce → Bytes → Session Cipher × Result Bytes
  seal_with s n plaintext =
      let header = encode n (take nonce_size plaintext) in
      let aad = create_aad header s.encryption_aad_buf in
      let ct = a.seal s.send_cipher header (drop nonce_size plaintext) aad in
      (record s { nonce = n; encryption_aad_buf = aad }, ok (header ++ ct))

  -- `cap` is the capacity of the slice `plaintext`.
  unfoldable pub encrypt : Session Cipher → ℕ → Bytes → Session Cipher × Result Bytes
  encrypt s cap plaintext =
      if ltb cap (length plaintext + overhead)
      then (s, err insufficient_capacity)
      else if ltb (length plaintext) nonce_size
      then (s, err buffer_too_short)
      else elim (increment s.nonce) [ err e ↦ (s, err e) | ok n ↦ seal_with s n plaintext ]

  -- After the tentative check: `Open`, and the commit of the nonce if it succeeds.
  unfoldable pub open_with : Session Cipher → ℕ → ℕ → Bytes → Session Cipher × Result Bytes
  open_with s low high ciphertext =
      let header = take nonce_size ciphertext in
      let aad = create_aad header s.decryption_aad_buf in
      let tried = record s { decryption_aad_buf = aad } in
      elim (a.unseal s.recv_cipher header (drop nonce_size ciphertext) aad) [
        | none ↦ (tried, err open_failed)
        | some pt ↦ (record tried { nonce_validator = accept s.nonce_validator low high }, ok pt)
      ]

  unfoldable pub decrypt : Session Cipher → Bytes → Session Cipher × Result Bytes
  decrypt s ciphertext =
      if ltb (length ciphertext) (nonce_size + overhead)
      then (s, err cipher_too_short)
      else (let low = be (take 8 ciphertext) in
          let high = be (take 2 (drop 8 ciphertext)) in
          elim (check s.nonce_validator low high) [
            | err e ↦ (s, err e)
            | ok _ ↦ open_with s low high ciphertext
          ])

unfoldable pub zeroize : {Cipher : Type 0} → Session Cipher → Session Cipher
zeroize s = record s {
  session_id = zero_bytes s.session_id;
  encryption_aad_buf = zero_bytes s.encryption_aad_buf;
  decryption_aad_buf = zero_bytes s.decryption_aad_buf;
  nonce = Nonce.zeroize s.nonce;
  nonce_validator = (Window.zeroize s.nonce_validator).1;
}
