-- ===== src/Server/Udp.antt =====
-- src/internal/server/udp/server.go: the two packet loops of the UDP server, a datagram or a packet of
-- the TUN device at a time. The device is a parameter, and so is the clock, in seconds. The reads of
-- the loops, their temporary errors and the log are left out: a turn begins with what was read.
pub mod Quiet
pub mod Ingress
pub mod Outgoing
pub mod Answers
pub mod Indexed
use tun_go.Base.{
  ℕ, ◌+◌, List, [], ◌∷◌, ◌++◌, Bool, true, false, Option, none, some, ltb, ◌==◌, ◌&&◌, ◌||◌, not,
  if◌then◌else◌, Bytes, length, take, drop, replicate, be, Result, ok, err, Error, short_buffer,
  epoch_exhausted,
}
use tun_go.Aead.{nonce_size}
use tun_go.Udp.Crypto.{nonce_offset, nonce_epoch_offset, read_route_id}
use tun_go.ServicePacket
use tun_go.ServicePacket.{parse, encode}
use tun_go.Ip.{Addr, extract_source_ip, extract_dest_ip}
use tun_go.Ip.Prefix.{AddrPort, same_addr_port}
use tun_go.Server.Peer.{
  Protocol, Egress, Peer, is_source_allowed, external_addr_port, touch_activity, decrypt, send,
  handle_rekey, observe_peer_epoch, activate_send_epoch,
}
use tun_go.Server.Repository.{
  Repository, modify, get_by_route_id, find_by_destination_ip, update_external_addr, delete_locked,
}
use tun_go.Server.Registrar.{Registrations, enqueue_packet}

abbrev pub epoch_offset : ℕ
epoch_offset = nonce_offset + nonce_epoch_offset

abbrev pub payload_offset : ℕ
payload_offset = nonce_offset + nonce_size

abbrev pub default_ethernet_mtu : ℕ
default_ethernet_mtu = 1500

-- `tun.Write`
pub record Device (D : Type 0) : Type 0 where
  pub write : D → Bytes → D × Result ℕ

pub record Server (S W D : Type 0) : Type 0 where
  pub peers : Repository S W
  pub tun : D
  pub registrations : Registrations

module _ {S W D : Type 0} where
  -- A peer of the store that changed.
  unfoldable pub put_peer : Server S W D → ℕ → Peer S W → Server S W D
  put_peer s p x = record s { peers = modify s.peers p x }

  abbrev pub peer_at : Server S W D → ℕ → Peer S W
  peer_at s p = s.peers.heap p

-- `errors.Is(err, rekey.ErrEpochExhausted)`
unfoldable pub is_epoch_exhausted : Error → Bool
is_epoch_exhausted epoch_exhausted = true
is_epoch_exhausted e = false

module _ {S W D : Type 0} (proto : Protocol S) (egress : Egress W) where
  unfoldable pub send_to : Server S W D → ℕ → Bytes → Server S W D × Result ℕ
  unfolding put_peer
  send_to s p frame = let r = send proto egress (peer_at s p) frame in (put_peer s p r.0, r.1)

  -- The payload stands behind the headroom of the frame.
  unfoldable pub send_service : Server S W D → ℕ → ℕ → Bytes → Server S W D × Result ℕ
  unfolding send_to
  send_service s p kind body =
      if ltb default_ethernet_mtu (3 + length body)
      then (s, err short_buffer)
      else elim (encode kind (replicate 3 0 ++ body)) [
        | err e ↦ (s, err e)
        | ok payload ↦ send_to s p (replicate payload_offset 0 ++ payload)
      ]

  unfoldable pub send_plaintext : Server S W D → ℕ → Bytes → Server S W D × Result ℕ
  unfolding send_to
  send_plaintext s p payload =
      if ltb default_ethernet_mtu (length payload)
      then (s, err short_buffer)
      else send_to s p (replicate payload_offset 0 ++ payload)

  -- What the peer's rekey made of a request: the error of the exhausted epochs is answered, any other
  -- is dropped.
  unfoldable pub answer_rekey :
      Server S W D → ℕ → Result (Option (Bytes × ℕ)) → Server S W D × Result ℕ
  unfolding send_service send_plaintext
  answer_rekey s p (ok none) = (s, ok 0)
  answer_rekey s p (ok (some (response, epoch))) = send_plaintext s p response
  answer_rekey s p (err e) =
      if is_epoch_exhausted e
      then ((send_service s p ServicePacket.epoch_exhausted []).0, ok 0)
      else (s, ok 0)

  unfoldable pub handle_rekey_request : Server S W D → ℕ → ℕ → Bytes → Server S W D × Result ℕ
  unfolding answer_rekey put_peer
  handle_rekey_request s p carrier plaintext =
      let r = handle_rekey proto (peer_at s p) carrier plaintext in
      answer_rekey (put_peer s p r.0) p r.1

  -- The result of a service packet, or nothing for any other.
  unfoldable pub handle_service : Server S W D → ℕ → ℕ → Bytes → Option (Server S W D × Result ℕ)
  unfolding handle_rekey_request send_service
  handle_service s p carrier plaintext = elim (parse plaintext) [
    | none ↦ none
    | some kind ↦
        (if kind == ServicePacket.rekey_init || kind == ServicePacket.rekey_init_v2
          then some (handle_rekey_request s p carrier plaintext)
          else if kind == ServicePacket.ping
          then some (send_service s p ServicePacket.pong [])
          else some (s, ok 0))
  ]

module _ {S W D : Type 0} (proto : Protocol S) (egress : Egress W) (dev : Device D) where
  -- The check of the source, and the TUN device.
  unfoldable pub deliver : Server S W D → ℕ → Bytes → Server S W D × Result ℕ
  deliver s p plaintext = elim (extract_source_ip plaintext) [
    | none ↦ (s, ok 0)
    | some source ↦
        (if is_source_allowed (peer_at s p) source
          then (let w = dev.write s.tun plaintext in (record s { tun = w.0 }, w.1))
          else (s, ok 0))
  ]

  unfoldable pub handle_epoch : Server S W D → ℕ → ℕ → Bytes → Server S W D × Result ℕ
  unfolding put_peer handle_service deliver
  handle_epoch s p epoch plaintext =
      let observed : Peer S W = observe_peer_epoch proto (peer_at s p) epoch in
      let s' : Server S W D = put_peer s p (activate_send_epoch proto observed epoch) in
      elim (handle_service proto egress s' p epoch plaintext) [
        | some r ↦ r
        | none ↦ deliver s' p plaintext
      ]

  unfoldable pub handle_decrypted : Server S W D → ℕ → ℕ → Bytes → Bytes → Server S W D × Result ℕ
  unfolding handle_epoch put_peer
  handle_decrypted s now p frame plaintext =
      if (peer_at s p).closed
      then (s, ok 0)
      else (let s' : Server S W D = put_peer s p (touch_activity (peer_at s p) now) in
          if ltb (length frame) (epoch_offset + 2)
          then (s', ok 0)
          else handle_epoch s' p (be (take 2 (drop epoch_offset frame))) plaintext)

  unfoldable pub roam : Server S W D → AddrPort → ℕ → Server S W D
  roam s addr p =
      if same_addr_port (external_addr_port (peer_at s p)) addr
      then s
      else record s { peers = update_external_addr egress s.peers p addr }

  unfoldable pub handle_established :
      Server S W D → ℕ → AddrPort → ℕ → Bytes → Server S W D × Result ℕ
  unfolding put_peer roam handle_decrypted
  handle_established s now addr p frame =
      let r = decrypt proto (peer_at s p) frame in
      elim r.1 [
        | err e ↦ (put_peer s p r.0, ok 0)
        | ok plaintext ↦ handle_decrypted (roam (put_peer s p r.0) addr p) now p frame plaintext
      ]

  unfoldable pub handle_datagram : Server S W D → ℕ → AddrPort → Bytes → Server S W D × Result ℕ
  unfolding handle_established
  handle_datagram s now addr frame = elim (read_route_id frame) [
    | none ↦ (s, ok 0)
    | some route ↦ elim (get_by_route_id s.peers route) [
      | err e ↦ (record s { registrations = (enqueue_packet s.registrations addr frame).0 }, ok 0)
      | ok p ↦ handle_established s now addr p frame
    ]
  ]

  -- A turn of `runTun` with the packet that was read.
  unfoldable pub tun_turn : Server S W D → Bytes → Server S W D
  unfolding send_to
  tun_turn s plaintext = elim (extract_dest_ip plaintext) [
    | none ↦ s
    | some destination ↦ elim (find_by_destination_ip s.peers destination) [
      | err e ↦ s
      | ok p ↦
          (let r = send_to proto egress s p (replicate payload_offset 0 ++ plaintext) in
            elim r.1 [
              | ok n ↦ r.0
              | err e ↦ record r.0 { peers = delete_locked proto egress r.0.peers p }
            ])
    ]
  ]
