-- ===== src/Tcp/Crypto.antt =====
-- src/internal/protocol/chacha20/tcp/crypto.go: the frame codec over the sessions of an epoch transition.
-- The lock makes each method one step. `send`, `recvNewest` and `recvPrevious` share sessions by
-- pointer, so the sessions stand in a store and a pointer is a position in it.
pub mod Frames
pub mod Lifecycle
use tun_go.Base.{
  ℕ, ◌+◌, ◌-◌, List, [], ◌∷◌, ◌++◌, Bool, true, false, ◌&&◌, not, Option, none, some, ltb, leb,
  ◌==◌, if◌then◌else◌, Bytes, length, take, drop, put_be, be, get_elem?, set, Result, ok, err,
  buffer_too_short, cipher_too_short, unknown_epoch, no_session, epoch_exhausted, rekey_refused,
  bad_key_size, insufficient_capacity,
}
use tun_go.Aead.{Aead, overhead}
use tun_go.Core.{max_epoch, zero_bytes}
use tun_go.Tcp.Session
use tun_go.Tcp.Session.{Session, new_session_with_ciphers}

abbrev pub epoch_prefix_size : ℕ
epoch_prefix_size = 2

pub record EpochSession : Type 0 where
  pub epoch : ℕ  -- uint16
  pub session : Option ℕ  -- a pointer, which may be nil

pub record Crypto (Cipher : Type 0) : Type 0 where
  pub sessions : List (Session Cipher)  -- what the pointers point at
  pub recv_newest : EpochSession
  pub recv_previous : EpochSession
  pub send : EpochSession
  pub session_id : Bytes  -- [32]byte
  pub is_server : Bool
  pub epoch_counter : ℕ  -- uint16

abbrev pub same_session : Option ℕ → Option ℕ → Bool
same_session none none = true
same_session none (some j) = false
same_session (some i) none = false
same_session (some i) (some j) = i == j

-- `epochSession{}`
abbrev pub no_epoch_session : EpochSession
no_epoch_session = record { epoch = 0; session = none }

-- The test `e.session != nil && epoch == e.epoch` and its session.
unfoldable pub session_for : ℕ → EpochSession → Option ℕ
session_for epoch e = if epoch == e.epoch then e.session else none

module _ {Cipher : Type 0} where
  unfoldable pub new_crypto : Bytes → Cipher → Cipher → Bool → Crypto Cipher
  new_crypto id send recv is_server = record {
    sessions = new_session_with_ciphers id send recv is_server 0 ∷ [];
    recv_newest = record { epoch = 0; session = some 0 };
    recv_previous = no_epoch_session;
    send = record { epoch = 0; session = some 0 };
    session_id = id;
    is_server = is_server;
    epoch_counter = 0;
  }

  unfoldable pub receive_session_for_epoch : Crypto Cipher → ℕ → Option ℕ
  receive_session_for_epoch c epoch = elim (session_for epoch c.recv_newest) [
    | some p ↦ some p
    | none ↦ session_for epoch c.recv_previous
  ]

  unfoldable pub promote_send_epoch : Crypto Cipher → ℕ → Crypto Cipher
  promote_send_epoch c epoch = elim (session_for epoch c.recv_newest) [
    | none ↦ c
    | some _ ↦ record c { send = c.recv_newest }
  ]

  -- `zeroize` of the session behind a pointer.
  unfoldable pub zeroize_at : Option ℕ → List (Session Cipher) → List (Session Cipher)
  zeroize_at none l = l
  zeroize_at (some p) l = elim (get_elem? l p) [ none ↦ l | some s ↦ set l p (Session.zeroize s) ]

  unfoldable pub retire_previous_epoch : Crypto Cipher → Crypto Cipher × Bool
  retire_previous_epoch c = elim c.recv_previous.session [
    | none ↦ (c, false)
    | some p ↦
        if c.send.epoch == c.recv_newest.epoch && same_session c.send.session c.recv_newest.session
        then (
          record c { sessions = zeroize_at (some p) c.sessions; recv_previous = no_epoch_session },
          true,
        )
        else (c, false)
  ]

  unfoldable pub zeroize : Crypto Cipher → Crypto Cipher
  zeroize c = record c {
    sessions = zeroize_at c.recv_previous.session (zeroize_at c.recv_newest.session c.sessions);
    session_id = zero_bytes c.session_id;
  }

  -- The session of the next epoch in place of the newest one.
  unfoldable pub install : Crypto Cipher → Cipher → Cipher → Crypto Cipher
  install c send recv =
      let next = c.epoch_counter + 1 in
      record c {
        sessions =
            c.sessions ++ (new_session_with_ciphers c.session_id send recv c.is_server next ∷ []);
        epoch_counter = next;
        recv_previous = c.recv_newest;
        recv_newest = record { epoch = next; session = some (length c.sessions) };
      }

module _ {Cipher : Type 0} (a : Aead Cipher) where
  -- The session behind a pointer encrypts, and the epoch goes in front. A pointer that points at
  -- nothing does not occur.
  unfoldable pub encrypt_at : Crypto Cipher → ℕ → ℕ → Bytes → Crypto Cipher × Result Bytes
  encrypt_at c p cap buf = elim (get_elem? c.sessions p) [
    | none ↦ (c, err no_session)
    | some s ↦
        let (s', r) = Session.encrypt a s (cap - epoch_prefix_size) (drop epoch_prefix_size buf) in
        let c' = record c { sessions = set c.sessions p s' } in
        elim r [
          | err e ↦ (c', err e)
          | ok ciphertext ↦ (c', ok (put_be 2 c.send.epoch ++ ciphertext))
        ]
  ]

  -- `buf` is [2 bytes epoch][plaintext] in a slice of capacity `cap`.
  unfoldable pub encrypt : Crypto Cipher → ℕ → Bytes → Crypto Cipher × Result Bytes
  encrypt c cap buf =
      if ltb (length buf) epoch_prefix_size
      then (c, err buffer_too_short)
      else if ltb cap (length buf + overhead)
      then (c, err insufficient_capacity)
      else elim c.send.session [ none ↦ (c, err no_session) | some p ↦ encrypt_at c p cap buf ]

  unfoldable pub decrypt_at : Crypto Cipher → ℕ → Bytes → Crypto Cipher × Result Bytes
  decrypt_at c p ciphertext = elim (get_elem? c.sessions p) [
    | none ↦ (c, err no_session)
    | some s ↦
        let (s', r) = Session.decrypt a s ciphertext in
        (record c { sessions = set c.sessions p s' }, r)
  ]

  unfoldable pub decrypt : Crypto Cipher → Bytes → Crypto Cipher × Result Bytes
  decrypt c frame =
      if ltb (length frame) epoch_prefix_size
      then (c, err cipher_too_short)
      else elim (receive_session_for_epoch c (be (take epoch_prefix_size frame))) [
        | none ↦ (c, err unknown_epoch)
        | some p ↦ decrypt_at c p (drop epoch_prefix_size frame)
      ]

  unfoldable pub stage_epoch : Crypto Cipher → Bytes → Bytes → Crypto Cipher × Result ℕ
  stage_epoch c c2s s2c =
      let send_key = if c.is_server then s2c else c2s in
      let recv_key = if c.is_server then c2s else s2c in
      elim c.recv_previous.session [
        | some _ ↦ (c, err rekey_refused)
        | none ↦
            if leb max_epoch c.epoch_counter
            then (c, err epoch_exhausted)
            else elim (a.new send_key) [
              | none ↦ (c, err bad_key_size)
              | some send ↦ elim (a.new recv_key) [
                | none ↦ (c, err bad_key_size)
                | some recv ↦ (install c send recv, ok (c.epoch_counter + 1))
              ]
            ]
      ]
