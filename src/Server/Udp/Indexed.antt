-- ===== src/Server/Udp/Indexed.antt =====
-- The two loops of the UDP server (udp/server.go) keep the invariant of the repository, in any order of
-- their turns.
use tun_go.Base.{ℕ, ◌+◌, List, [], ◌∷◌, ◌++◌, ltb, Bytes, length, take, drop, replicate, be, arith}
use tun_go.Base.Branches.{if_all, Result_all, Option_all}
use tun_go.Ip.Prefix.{AddrPort}
use tun_go.Udp.Crypto.{read_route_id}
use tun_go.Ip.{extract_dest_ip}
use tun_go.Server.Peer.{
  Protocol, Egress, Peer, decrypt, touch_activity, observe_peer_epoch, activate_send_epoch,
}
use tun_go.Server.Repository.{get_by_route_id, find_by_destination_ip, reap_idle}
use tun_go.Server.Repository.Indexed.{IsIndexed}
use tun_go.Server.Repository.Updates.{update_external_addr-IsIndexed}
use tun_go.Server.Repository.Deletion.{delete_locked-IsIndexed}
use tun_go.Server.Repository.Reaping.{reap_idle-IsIndexed}
use tun_go.Server.Udp.{
  payload_offset, epoch_offset, Device, Server, put_peer, peer_at, send_to, handle_service, deliver,
  handle_epoch, handle_decrypted, roam, handle_established, handle_datagram, tun_turn,
}
use tun_go.Server.Udp.Answers.{
  KeepsRoute, decrypt-IsSamePeer, epoch-IsSamePeer, touch-IsSamePeer, Sound, put_peer-Valid,
  send_to-Valid, handle_service-Valid,
}

module _ {S W D : Type 0} (proto : Protocol S) (egress : Egress W) (dev : Device D)
    (law : KeepsRoute proto) where
  module _ (s : Server S W D) (p : ℕ) (v : IsIndexed proto s.peers) where
    deliver-Valid : (b : Bytes) → IsIndexed proto (deliver proto egress dev s p b).0.peers
    unfolding deliver
    deliver-Valid b = ground (arith, v)

    roam-Valid : (a : AddrPort) → IsIndexed proto (roam proto egress dev s a p).peers
    unfolding roam
    roam-Valid a = ground (arith, v, update_external_addr-IsIndexed proto egress s.peers p a v)

  module _ (s : Server S W D) (p : ℕ) (v : IsIndexed proto s.peers) where
    handle_epoch-Valid :
        (e : ℕ) (b : Bytes) → IsIndexed proto (handle_epoch proto egress dev s p e b).0.peers
    unfolding handle_epoch
    handle_epoch-Valid e b =
        Option_all (Sound proto) (handle_service proto egress t p e b) _ (λ r. r)
          (deliver-Valid t p w b) (λ r h. handle_service-Valid proto egress law t p w e b r h)
      where
        x : Peer S W
        x = activate_send_epoch proto (observe_peer_epoch proto (peer_at s p) e) e

        t : Server S W D
        t = put_peer s p x

        w : IsIndexed proto t.peers
        w =
            put_peer-Valid proto egress law s p v x
              (epoch-IsSamePeer proto egress law (peer_at s p) e)

  module _ (s : Server S W D) (now p : ℕ) (v : IsIndexed proto s.peers) where
    handle_decrypted-Valid :
        (frame b : Bytes)
        → IsIndexed proto (handle_decrypted proto egress dev s now p frame b).0.peers
    unfolding handle_decrypted
    handle_decrypted-Valid frame b = if_all (Sound proto) (peer_at s p).closed _ _ v (
        if_all (Sound proto) (ltb (length frame) (epoch_offset + 2)) _ _ w
          (handle_epoch-Valid t p w (be (take 2 (drop epoch_offset frame))) b))
      where
        t : Server S W D
        t = put_peer s p (touch_activity (peer_at s p) now)

        w : IsIndexed proto t.peers
        w =
            put_peer-Valid proto egress law s p v (touch_activity (peer_at s p) now)
              (touch-IsSamePeer proto egress law (peer_at s p) now)

  module _ (s : Server S W D) (now : ℕ) (addr : AddrPort) (v : IsIndexed proto s.peers) where
    handle_established-Valid :
        (p : ℕ) (frame : Bytes)
        → IsIndexed proto (handle_established proto egress dev s now addr p frame).0.peers
    unfolding handle_established
    handle_established-Valid p frame =
        Result_all (Sound proto) (decrypt proto (peer_at s p) frame).1 _ _ (λ e. w)
          (λ b.
            handle_decrypted-Valid (roam proto egress dev t addr p) now p (roam-Valid t p w addr)
              frame b)
      where
        t : Server S W D
        t = put_peer s p (decrypt proto (peer_at s p) frame).0

        w : IsIndexed proto t.peers
        w =
            put_peer-Valid proto egress law s p v (decrypt proto (peer_at s p) frame).0
              (decrypt-IsSamePeer proto egress law (peer_at s p) frame)

    handle_datagram-Valid :
        (frame : Bytes)
        → IsIndexed proto (handle_datagram proto egress dev s now addr frame).0.peers
    unfolding handle_datagram
    handle_datagram-Valid frame = Option_all (Sound proto) (read_route_id frame) _ _ v (λ route e.
        Result_all (Sound proto) (get_by_route_id s.peers route) _ _ (λ x. v)
          (λ p. handle_established-Valid p frame))

  tun_turn-Valid :
      (s : Server S W D) (b : Bytes)
      → IsIndexed proto s.peers
      → IsIndexed proto (tun_turn proto egress dev s b).peers
  unfolding tun_turn
  tun_turn-Valid s b v = Option_all P (extract_dest_ip b) _ _ v (λ a here.
      Result_all P (find_by_destination_ip s.peers a) _ _ (λ e. v)
        (λ p.
          Result_all P (send_to proto egress s p frame).1 _ _
            (λ e.
              delete_locked-IsIndexed proto egress (send_to proto egress s p frame).0.peers p
                (sent p))
            (λ n. sent p)))
    where
      P : Server S W D → Type 0
      P t = IsIndexed proto t.peers

      frame : Bytes
      frame = replicate payload_offset 0 ++ b

      sent : (p : ℕ) → IsIndexed proto (send_to proto egress s p frame).0.peers
      sent p = send_to-Valid proto egress law s p v frame

-- A turn of one of the loops, or of the reaper.
pub data Turn : Type 0 where
  datagram : ℕ → AddrPort → Bytes → Turn
  packet : Bytes → Turn
  reap : ℕ → ℕ → Turn

module _ {S W D : Type 0} (proto : Protocol S) (egress : Egress W) (dev : Device D) where
  unfoldable pub turn : Server S W D → Turn → Server S W D
  turn s (datagram now addr frame) = (handle_datagram proto egress dev s now addr frame).0
  turn s (packet b) = tun_turn proto egress dev s b
  turn s (reap now timeout) = record s { peers = (reap_idle proto egress now timeout s.peers).0 }

  unfoldable pub run_turns : Server S W D → List Turn → Server S W D
  unfolding turn
  run_turns s [] = s
  run_turns s (t ∷ ts) = run_turns (turn s t) ts

module _ {S W D : Type 0} (proto : Protocol S) (egress : Egress W) (dev : Device D)
    (law : KeepsRoute proto) where
  turn-Valid :
      (s : Server S W D) (t : Turn)
      → IsIndexed proto s.peers
      → IsIndexed proto (turn proto egress dev s t).peers
  unfolding turn
  turn-Valid s (datagram now addr frame) v =
      handle_datagram-Valid proto egress dev law s now addr v frame
  turn-Valid s (packet b) v = tun_turn-Valid proto egress dev law s b v
  turn-Valid s (reap now timeout) v = reap_idle-IsIndexed proto egress now timeout s.peers v

  -- If the operations of a session keep its route id, then any sequence of datagrams, packets of
  -- the TUN device and reaper runs keeps the invariant of the repository: each entry of its maps
  -- leads to an open peer that belongs under the entry's key and is listed once under its public
  -- key.
  pub run_turns-IsIndexed :
      (s : Server S W D) (ts : List Turn)
      → IsIndexed proto s.peers
      → IsIndexed proto (run_turns proto egress dev s ts).peers
  unfolding run_turns
  run_turns-IsIndexed s [] v = v
  run_turns-IsIndexed s (t ∷ ts) v =
      run_turns-IsIndexed (turn proto egress dev s t) ts (turn-Valid s t v)
