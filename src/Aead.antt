-- ===== src/Aead.antt =====
-- What the code takes from golang.org/x/crypto/chacha20poly1305, as a parameter: the operations of
-- a cipher and, apart from them, the documented behaviour that the proofs rely on.
pub mod Toy
use tun_go.Base.{ℕ, ◌+◌, ◌≡◌, ◌≢◌, Bytes, length, Option, none, some}

abbrev pub nonce_size : ℕ
nonce_size = 12

abbrev pub overhead : ℕ
overhead = 16

abbrev pub key_size : ℕ
key_size = 32

-- `New`, `Seal` and `Open`; a cipher is made from its key.
pub record Aead (Cipher : Type 0) : Type 0 where
  pub new : Bytes → Option Cipher
  pub seal : Cipher → Bytes → Bytes → Bytes → Bytes
  pub unseal : Cipher → Bytes → Bytes → Bytes → Option Bytes

-- `New` wants a key of 32 bytes; `Seal` appends 16 bytes; `Open` undoes `Seal` under the same
-- nonce and additional data.
pub record Laws {Cipher : Type 0} (a : Aead Cipher) : Type 0 where
  pub new_sized : (key : Bytes) → length key ≡ key_size → (c : Cipher) × (a.new key ≡ some c)
  pub new_unsized : (key : Bytes) → length key ≢ key_size → a.new key ≡ none
  pub length-seal :
      (c : Cipher) (nonce plain aad : Bytes)
      → length (a.seal c nonce plain aad) ≡ length plain + overhead
  pub unseal-seal :
      (c : Cipher) (nonce plain aad : Bytes)
      → a.unseal c nonce (a.seal c nonce plain aad) aad ≡ some plain
