-- ===== src/Server/Udp/Answers.antt =====
-- What the peers and the service packets of the UDP server keep of the invariant of the repository (udp/server.go).
use tun_go.Base.{
  ℕ, ◌+◌, ◌≡◌, refl, [], ◌++◌, Option, none, some, ltb, Bytes, length, replicate, Result, ok, err,
  arith,
}
use tun_go.Base.Branches.{if_all, Result_all}
use tun_go.ServicePacket
use tun_go.Server.Peer.{
  Protocol, Egress, Peer, send, encrypted_send, decrypt, touch_activity, observe_peer_epoch,
  activate_send_epoch, handle_rekey,
}
use tun_go.Server.Repository.Indexed.{IsIndexed}
use tun_go.Server.Repository.Updates.{IsSamePeer, modify-IsIndexed}
use tun_go.Server.Udp.{
  payload_offset, Server, put_peer, peer_at, send_to, send_service, send_plaintext, answer_rekey,
  handle_rekey_request, handle_service, is_epoch_exhausted,
}

-- A session has one route id for its life.
pub record KeepsRoute {S : Type 0} (proto : Protocol S) : Type 0 where
  pub encrypt : (s : S) (b : Bytes) → proto.route_id (proto.encrypt s b).0 ≡ proto.route_id s
  pub decrypt : (s : S) (b : Bytes) → proto.route_id (proto.decrypt s b).0 ≡ proto.route_id s
  pub handle :
      (s : S) (c : ℕ) (b : Bytes) → proto.route_id (proto.handle s c b).0 ≡ proto.route_id s
  pub observe : (s : S) (e : ℕ) → proto.route_id (proto.observe_peer_epoch s e) ≡ proto.route_id s
  pub activate : (s : S) (e : ℕ) → proto.route_id (proto.activate_send_epoch s e) ≡ proto.route_id s

module _ {S W : Type 0} (proto : Protocol S) (egress : Egress W) (law : KeepsRoute proto)
    (x : Peer S W) where
  -- The operations of a peer change nothing that the maps know of it.
  pub send-IsSamePeer : (b : Bytes) → IsSamePeer proto (send proto egress x b).0 x
  unfolding send encrypted_send
  send-IsSamePeer b = record {
    closed = ground arith;
    internal_ip = ground arith;
    client_pub_key = ground arith;
    allowed_addrs = ground arith;
    route_id = ground (arith, law.encrypt x.session b);
  }

  pub decrypt-IsSamePeer : (b : Bytes) → IsSamePeer proto (decrypt proto x b).0 x
  unfolding decrypt
  decrypt-IsSamePeer b = record {
    closed = ground arith;
    internal_ip = ground arith;
    client_pub_key = ground arith;
    allowed_addrs = ground arith;
    route_id = ground (arith, law.decrypt x.session b);
  }

  pub handle-IsSamePeer : (c : ℕ) (b : Bytes) → IsSamePeer proto (handle_rekey proto x c b).0 x
  unfolding handle_rekey
  handle-IsSamePeer c b = record {
    closed = ground arith;
    internal_ip = ground arith;
    client_pub_key = ground arith;
    allowed_addrs = ground arith;
    route_id = ground (arith, law.handle x.session c b);
  }

  pub epoch-IsSamePeer :
      (e : ℕ) → IsSamePeer proto (activate_send_epoch proto (observe_peer_epoch proto x e) e) x
  unfolding activate_send_epoch observe_peer_epoch
  epoch-IsSamePeer e = record {
    closed = ground arith;
    internal_ip = ground arith;
    client_pub_key = ground arith;
    allowed_addrs = ground arith;
    route_id = ground (
      arith,
      law.observe x.session e,
      law.activate x.session e,
      law.activate (proto.observe_peer_epoch x.session e) e,
    );
  }

  pub touch-IsSamePeer : (now : ℕ) → IsSamePeer proto (touch_activity x now) x
  unfolding touch_activity
  touch-IsSamePeer now = record {
    closed = refl;
    internal_ip = refl;
    client_pub_key = refl;
    allowed_addrs = refl;
    route_id = refl;
  }

abbrev pub Sound : {S W D : Type 0} → Protocol S → Server S W D × Result ℕ → Type 0
Sound proto r = IsIndexed proto r.0.peers

module _ {S W D : Type 0} (proto : Protocol S) (egress : Egress W) (law : KeepsRoute proto) where
  abbrev pub Valid : Server S W D → Type 0
  Valid s = IsIndexed proto s.peers

  module _ (s : Server S W D) (p : ℕ) (v : Valid s) where
    pub put_peer-Valid : (x : Peer S W) → IsSamePeer proto x (peer_at s p) → Valid (put_peer s p x)
    unfolding put_peer
    put_peer-Valid x same = modify-IsIndexed proto s.peers p x same v

    pub send_to-Valid : (b : Bytes) → Valid (send_to proto egress s p b).0
    unfolding send_to
    send_to-Valid b =
        put_peer-Valid (send proto egress (peer_at s p) b).0
          (send-IsSamePeer proto egress law (peer_at s p) b)

    pub send_service-Valid : (kind : ℕ) (b : Bytes) → Valid (send_service proto egress s p kind b).0
    unfolding send_service
    send_service-Valid kind b = if_all (Sound proto) (ltb 1500 (3 + length b)) _ _ v (
        Result_all (Sound proto) (ServicePacket.encode kind (replicate 3 0 ++ b)) _ _ (λ e. v)
          (λ w. send_to-Valid (replicate payload_offset 0 ++ w)))

    pub send_plaintext-Valid : (b : Bytes) → Valid (send_plaintext proto egress s p b).0
    unfolding send_plaintext
    send_plaintext-Valid b =
        if_all (Sound proto) (ltb 1500 (length b)) _ _ v
          (send_to-Valid (replicate payload_offset 0 ++ b))

    pub answer_rekey-Valid :
        (r : Result (Option (Bytes × ℕ))) → Valid (answer_rekey proto egress s p r).0
    unfolding answer_rekey
    answer_rekey-Valid (ok none) = v
    answer_rekey-Valid (ok (some (response, epoch))) = send_plaintext-Valid response
    answer_rekey-Valid (err e) =
        if_all (Sound proto) (is_epoch_exhausted e) _ _
          (send_service-Valid ServicePacket.epoch_exhausted []) v

  module _ (s : Server S W D) (p : ℕ) (v : Valid s) where
    pub handle_rekey_request-Valid :
        (carrier : ℕ) (b : Bytes) → Valid (handle_rekey_request proto egress s p carrier b).0
    unfolding handle_rekey_request
    handle_rekey_request-Valid carrier b =
        let r = handle_rekey proto (peer_at s p) carrier b in
        answer_rekey-Valid (put_peer s p r.0) p
          (put_peer-Valid s p v r.0 (handle-IsSamePeer proto egress law (peer_at s p) carrier b))
          r.1

    pub handle_service-Valid :
        (carrier : ℕ) (b : Bytes) (r : Server S W D × Result ℕ)
        → handle_service proto egress s p carrier b ≡ some r
        → Valid r.0
    unfolding handle_service
    handle_service-Valid carrier b r h = ground (
      arith,
      handle_rekey_request-Valid carrier b,
      send_service-Valid s p v ServicePacket.pong [],
      v,
    )
