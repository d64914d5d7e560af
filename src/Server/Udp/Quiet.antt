-- ===== src/Server/Udp/Quiet.antt =====
-- What the steps of a datagram leave as it is until the TUN device is written (udp/server.go).
use tun_go.Base.{
  ℕ, ◌≡◌, ◌∙◌, inl, inr, refl, ap, [], Option, none, some, ==_iff, if◌then◌else◌, Bytes, Result, ok,
  err, arith, Bool-cases,
}
use tun_go.ServicePacket
use tun_go.Ip.{Addr}
use tun_go.Ip.Prefix.{AddrPort}
use tun_go.Server.Peer.{
  Protocol, Egress, Peer, handle_rekey, is_source_allowed, update_egress_addr,
  set_external_addr_port,
}
use tun_go.Server.Repository.{modify, update_external_addr}
use tun_go.Server.Udp.{
  Device, Server, put_peer, peer_at, send_to, send_service, send_plaintext, answer_rekey,
  handle_rekey_request, handle_service, roam, is_epoch_exhausted,
}

module _ {S W D : Type 0} (proto : Protocol S) (egress : Egress W) (s : Server S W D) (p : ℕ) where
  -- The services write nothing to the device.
  pub tun-send_service :
      (kind : ℕ) (body : Bytes) → (send_service proto egress s p kind body).0.tun ≡ s.tun
  unfolding send_service send_to put_peer
  tun-send_service kind body = ground arith

  pub tun-answer_rekey :
      (r : Result (Option (Bytes × ℕ))) → (answer_rekey proto egress s p r).0.tun ≡ s.tun
  unfolding answer_rekey send_plaintext send_to put_peer
  tun-answer_rekey (ok none) = refl
  tun-answer_rekey (ok (some (response, epoch))) = ground arith
  tun-answer_rekey (err e) = elim (Bool-cases (is_epoch_exhausted e)) [
    | inl y ↦
        ap (λ b. (if b then w else (s, ok 0)).0.tun) y
        ∙ tun-send_service ServicePacket.epoch_exhausted []
    | inr n ↦ ap (λ b. (if b then w else (s, ok 0)).0.tun) n
  ]
    where
      w : Server S W D × Result ℕ
      w = ((send_service proto egress s p ServicePacket.epoch_exhausted []).0, ok 0)

module _ {S W D : Type 0} (proto : Protocol S) (egress : Egress W) (s : Server S W D) (p : ℕ) where
  pub tun-handle_rekey_request :
      (carrier : ℕ) (plaintext : Bytes)
      → (handle_rekey_request proto egress s p carrier plaintext).0.tun ≡ s.tun
  unfolding handle_rekey_request put_peer
  tun-handle_rekey_request carrier plaintext =
      let r = handle_rekey proto (peer_at s p) carrier plaintext in
      tun-answer_rekey proto egress (put_peer s p r.0) p r.1

  pub tun-handle_service :
      (carrier : ℕ) (plaintext : Bytes) (r : Server S W D × Result ℕ)
      → handle_service proto egress s p carrier plaintext ≡ some r
      → r.0.tun ≡ s.tun
  unfolding handle_service
  tun-handle_service carrier plaintext r h = ground (
    arith,
    tun-handle_rekey_request carrier plaintext,
    tun-send_service proto egress s p ServicePacket.pong [],
  )

-- What the steps of a datagram leave as it is until the device is written: the device, and where the
-- peer may send from.
pub record IsQuiet {S W D : Type 0} (s' s : Server S W D) (p : ℕ) : Type 0 where
  pub device : s'.tun ≡ s.tun
  pub sources : (a : Addr) → is_source_allowed (peer_at s' p) a ≡ is_source_allowed (peer_at s p) a

module _ {S W D : Type 0} (s : Server S W D) (p : ℕ) where
  pub IsQuiet-put_peer :
      (x : Peer S W)
      → x.internal_ip ≡ (peer_at s p).internal_ip
      → x.allowed_addrs ≡ (peer_at s p).allowed_addrs
      → x.allowed_nets ≡ (peer_at s p).allowed_nets
      → IsQuiet (put_peer s p x) s p
  unfolding put_peer modify is_source_allowed
  IsQuiet-put_peer x ip addrs nets = record {
    device = refl;
    sources = λ a. ground (arith, ip, addrs, nets, ==_iff p p);
  }

  pub IsQuiet-trans : (t u : Server S W D) → IsQuiet u t p → IsQuiet t s p → IsQuiet u s p
  IsQuiet-trans t u a b = record {
    device = a.device ∙ b.device;
    sources = λ x. a.sources x ∙ b.sources x;
  }

  pub IsQuiet-refl : IsQuiet s s p
  IsQuiet-refl = record { device = refl; sources = λ a. refl }

module _ {S W D : Type 0} (proto : Protocol S) (egress : Egress W) (dev : Device D)
    (s : Server S W D) (p : ℕ) where
  pub IsQuiet-roam : (addr : AddrPort) → IsQuiet (roam proto egress dev s addr p) s p
  unfolding roam update_external_addr modify is_source_allowed update_egress_addr
      set_external_addr_port
  IsQuiet-roam addr = record { device = ground arith; sources = λ a. ground (arith, ==_iff p p) }
