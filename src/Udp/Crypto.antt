-- ===== src/Udp/Crypto.antt =====
-- src/internal/protocol/chacha20/udp/crypto.go, wire.go and route_id.go: the UDP packet codec over the
-- epoch ring. Each method is one step: `StageEpoch` and `Zeroize` hold the rekey lock, and the
-- sessions are used by one goroutine at a time.
pub mod Epochs
pub mod Packets
pub mod Routing
use tun_go.Base.{
  ℕ, ◌+◌, ◌-◌, List, [], ◌∷◌, ◌++◌, Bool, true, false, ◌&&◌, not, Option, none, some, ltb, leb,
  ◌==◌, if◌then◌else◌, Bytes, length, take, drop, put_be, be, Result, ok, err, buffer_too_short,
  cipher_too_short, unknown_route_id, unknown_epoch, no_session, epoch_exhausted, rekey_refused,
  bad_key_size,
}
use tun_go.Aead.{Aead, nonce_size, overhead}
use tun_go.Core.{max_epoch, zero_bytes}
use tun_go.Udp.Session
use tun_go.Udp.Session.{Session, new_session_with_ciphers}
use tun_go.Udp.Ring.{
  EpochRing, EpochEntry, new_epoch_ring, resolve, resolve_current, insert, oldest, len, zeroize_all,
  update_entry, update_last,
}

abbrev pub default_epoch_ring_capacity : ℕ
default_epoch_ring_capacity = 4

abbrev pub route_id_length : ℕ
route_id_length = 8

abbrev pub nonce_offset : ℕ
nonce_offset = route_id_length

abbrev pub nonce_epoch_offset : ℕ
nonce_epoch_offset = 10

abbrev pub min_packet_size : ℕ
min_packet_size = nonce_offset + nonce_size + overhead

unfoldable pub route_id_from_session_id : Bytes → ℕ
route_id_from_session_id id = be (take route_id_length id)

unfoldable pub read_route_id : Bytes → Option ℕ
read_route_id packet =
    if ltb (length packet) route_id_length then none else some (be (take route_id_length packet))

pub record Crypto (Cipher : Type 0) : Type 0 where
  pub ring : EpochRing Cipher
  pub is_server : Bool
  pub session_id : Bytes  -- [32]byte
  pub route_id : ℕ  -- uint64
  pub send_epoch : ℕ  -- uint16
  pub epoch_counter : ℕ  -- uint16

module _ {Cipher : Type 0} where
  unfoldable pub new_crypto : Bytes → Cipher → Cipher → Bool → Crypto Cipher
  new_crypto id send recv is_server = record {
    ring =
        new_epoch_ring default_epoch_ring_capacity 0
          (some (new_session_with_ciphers id send recv is_server 0));
    is_server = is_server;
    session_id = id;
    route_id = route_id_from_session_id id;
    send_epoch = 0;
    epoch_counter = 0;
  }

  unfoldable pub promote_send_epoch : Crypto Cipher → ℕ → Crypto Cipher
  promote_send_epoch c epoch = record c { send_epoch = epoch }

  -- `RetirePreviousEpoch` acknowledges, and leaves older sessions in the ring.
  unfoldable pub retire_previous_epoch : Crypto Cipher → Crypto Cipher × Bool
  retire_previous_epoch c = (c, true)

  unfoldable pub zeroize : Crypto Cipher → Crypto Cipher
  zeroize c = record c { session_id = zero_bytes c.session_id; ring = (zeroize_all c.ring).1 }

  -- "the active send epoch would be evicted before confirmation"
  unfoldable pub would_evict_send : Crypto Cipher → Bool
  would_evict_send c = elim (oldest c.ring) [
    | none ↦ false
    | some epoch ↦ len c.ring == c.ring.capacity && epoch == c.send_epoch
  ]

module _ {Cipher : Type 0} (a : Aead Cipher) where
  -- The tail of `Encrypt`: the session's packet behind the route id. `store` puts the session back.
  unfoldable pub encrypt_session :
      Crypto Cipher
      → (Session Cipher → List (EpochEntry Cipher))
      → Option (Session Cipher)
      → ℕ
      → Bytes
      → Crypto Cipher × Result Bytes
  encrypt_session c store none cap p = (c, err no_session)
  encrypt_session c store (some s) cap p =
      let (s', r) = Session.encrypt a s (cap - route_id_length) (drop route_id_length p) in
      let c' = record c { ring = record (c.ring) { entries = store s' } } in
      elim r [ err e ↦ (c', err e) | ok encrypted ↦ (c', ok (put_be 8 c.route_id ++ encrypted)) ]

  -- `plaintext` is [8 bytes route id][12 bytes nonce][payload] in a slice of capacity `cap`. A
  -- session pointer of the ring is never nil; a call on nil would panic and is an error here.
  unfoldable pub encrypt : Crypto Cipher → ℕ → Bytes → Crypto Cipher × Result Bytes
  encrypt c cap plaintext =
      if ltb (length plaintext) (route_id_length + nonce_size)
      then (c, err buffer_too_short)
      else elim (resolve c.ring c.send_epoch) [
        | some s ↦
            encrypt_session c (λ s'. update_entry c.send_epoch s' c.ring.entries) s cap plaintext
        | none ↦ elim (resolve_current c.ring) [
          | none ↦ (c, err no_session)
          | some s ↦ encrypt_session c (λ s'. update_last s' c.ring.entries) s cap plaintext
        ]
      ]

  unfoldable pub decrypt_session :
      Crypto Cipher → ℕ → Option (Session Cipher) → Bytes → Crypto Cipher × Result Bytes
  decrypt_session c epoch none payload = (c, err unknown_epoch)
  decrypt_session c epoch (some s) payload =
      if not (s.epoch == epoch)
      then (c, err unknown_epoch)
      else (let (s', r) = Session.decrypt a s payload in
          (
            record c { ring = record (c.ring) { entries = update_entry epoch s' c.ring.entries } },
            r,
          ))

  -- The nonce and ciphertext of a packet for this route, to the session of the epoch it names.
  unfoldable pub decrypt_routed : Crypto Cipher → Bytes → Crypto Cipher × Result Bytes
  decrypt_routed c payload =
      let epoch = be (take 2 (drop nonce_epoch_offset payload)) in
      elim (resolve c.ring epoch) [
        | none ↦ (c, err unknown_epoch)
        | some s ↦ decrypt_session c epoch s payload
      ]

  unfoldable pub decrypt : Crypto Cipher → Bytes → Crypto Cipher × Result Bytes
  decrypt c ciphertext =
      if ltb (length ciphertext) min_packet_size
      then (c, err cipher_too_short)
      else elim (read_route_id ciphertext) [
        | none ↦ (c, err cipher_too_short)
        | some route_id ↦
            if not (route_id == c.route_id)
            then (c, err unknown_route_id)
            else decrypt_routed c (drop nonce_offset ciphertext)
      ]

  unfoldable pub stage_epoch : Crypto Cipher → Bytes → Bytes → Crypto Cipher × Result ℕ
  stage_epoch c c2s s2c =
      let send_key = if c.is_server then s2c else c2s in
      let recv_key = if c.is_server then c2s else s2c in
      let next = c.epoch_counter + 1 in
      if leb max_epoch c.epoch_counter
      then (c, err epoch_exhausted)
      else if would_evict_send c
      then (c, err rekey_refused)
      else elim (a.new send_key) [
        | none ↦ (c, err bad_key_size)
        | some send ↦ elim (a.new recv_key) [
          | none ↦ (c, err bad_key_size)
          | some recv ↦
              let s = new_session_with_ciphers c.session_id send recv c.is_server next in
              (record c { ring = (insert c.ring next (some s)).0; epoch_counter = next }, ok next)
        ]
      ]
