-- ===== src/Server/Udp/Ingress.antt =====
-- What reaches the TUN device from the network (udp/server.go): only what the peer of the route id
-- decrypted, and only under a source that this peer may use.
use tun_go.Base.{
  ℕ, ◌+◌, ◌≡◌, ◌∙◌, ◌⊎◌, inl, inr, refl, sym, ap, subst, true, false, Option, none, some, ltb,
  Bytes, length, take, drop, be, Result, ok, err, arith, Option-cases, Bool-cases,
}
use tun_go.Udp.Crypto.{read_route_id}
use tun_go.Ip.{Addr, extract_source_ip}
use tun_go.Ip.Prefix.{AddrPort}
use tun_go.Server.Peer.{
  Protocol, Egress, is_source_allowed, decrypt, touch_activity, observe_peer_epoch,
  activate_send_epoch,
}
use tun_go.Server.Repository.{get_by_route_id}
use tun_go.Server.Udp.{
  epoch_offset, Device, Server, put_peer, peer_at, handle_service, deliver, handle_epoch,
  handle_decrypted, roam, handle_established, handle_datagram,
}
use tun_go.Server.Udp.Quiet.{
  tun-handle_service, IsQuiet, IsQuiet-put_peer, IsQuiet-trans, IsQuiet-roam,
}

module _ {S W D : Type 0} (proto : Protocol S) (egress : Egress W) (dev : Device D) where
  -- The datagram `frame` led to a write: of what the peer of its route id decrypted, which came from a
  -- source of that peer.
  pub record IsForwarded (s : Server S W D) (frame : Bytes) (tun : D) : Type 0 where
    pub route : ℕ
    pub peer : ℕ
    pub plaintext : Bytes
    pub source : Addr
    pub read : read_route_id frame ≡ some route
    pub routed : get_by_route_id s.peers route ≡ ok peer
    pub opened : (decrypt proto (peer_at s peer) frame).1 ≡ ok plaintext
    pub sourced : extract_source_ip plaintext ≡ some source
    pub allowed : is_source_allowed (peer_at s peer) source ≡ true
    pub written : tun ≡ (dev.write s.tun plaintext).0

  -- The same for a plaintext that is there already.
  record IsDelivered (s : Server S W D) (p : ℕ) (plaintext : Bytes) (tun : D) : Type 0 where
    pub source : Addr
    pub sourced : extract_source_ip plaintext ≡ some source
    pub allowed : is_source_allowed (peer_at s p) source ≡ true
    pub written : tun ≡ (dev.write s.tun plaintext).0

  module _ (p : ℕ) (plaintext : Bytes) where
    tun-deliver :
        (s : Server S W D)
        → ((deliver proto egress dev s p plaintext).0.tun ≡ s.tun)
          ⊎ IsDelivered s p plaintext (deliver proto egress dev s p plaintext).0.tun
    unfolding deliver
    tun-deliver s = elim (Option-cases (extract_source_ip plaintext)) [
      | inl n ↦ inl (ground (arith, n))
      | inr (a, e) ↦ (elim (Bool-cases (is_source_allowed (peer_at s p) a)) [
        | inl y ↦
            inr record { source = a; sourced = e; allowed = y; written = ground (arith, e, y) }
        | inr n ↦ inl (ground (arith, e, n))
      ])
    ]

    IsDelivered-IsQuiet :
        (s t : Server S W D) (tun : D)
        → IsQuiet t s p
        → (tun ≡ t.tun) ⊎ IsDelivered t p plaintext tun
        → (tun ≡ s.tun) ⊎ IsDelivered s p plaintext tun
    IsDelivered-IsQuiet s t tun quiet (inl e) = inl (e ∙ quiet.device)
    IsDelivered-IsQuiet s t tun quiet (inr d) = inr record {
      source = d.source;
      sourced = d.sourced;
      allowed = sym (quiet.sources d.source) ∙ d.allowed;
      written = d.written ∙ ap (λ x. (dev.write x plaintext).0) quiet.device;
    }

  opened :
      (s : Server S W D) (p : ℕ) (frame : Bytes)
      → IsQuiet (put_peer s p (decrypt proto (peer_at s p) frame).0) s p
  unfolding decrypt
  opened s p frame =
      IsQuiet-put_peer s p (decrypt proto (peer_at s p) frame).0 (ground arith) (ground arith)
        (ground arith)

  module _ (p : ℕ) (plaintext : Bytes) where
    IsQuiet-handle_epoch :
        (s : Server S W D) (epoch : ℕ)
        → IsQuiet
            (put_peer s p
              (activate_send_epoch proto (observe_peer_epoch proto (peer_at s p) epoch) epoch))
            s
            p
    unfolding activate_send_epoch observe_peer_epoch
    IsQuiet-handle_epoch s epoch =
        IsQuiet-put_peer s p
          (activate_send_epoch proto (observe_peer_epoch proto (peer_at s p) epoch) epoch)
          (ground arith) (ground arith) (ground arith)

    tun-handle_epoch :
        (s : Server S W D) (epoch : ℕ)
        → ((handle_epoch proto egress dev s p epoch plaintext).0.tun ≡ s.tun)
          ⊎ IsDelivered s p plaintext (handle_epoch proto egress dev s p epoch plaintext).0.tun
    unfolding handle_epoch
    tun-handle_epoch s epoch =
        IsDelivered-IsQuiet p plaintext s t
          (handle_epoch proto egress dev s p epoch plaintext).0.tun (IsQuiet-handle_epoch s epoch)
          (go (handle_service proto egress t p epoch plaintext) refl)
      where
        t : Server S W D
        t =
            put_peer s p
              (activate_send_epoch proto (observe_peer_epoch proto (peer_at s p) epoch) epoch)

        run : Option (Server S W D × Result ℕ) → Server S W D × Result ℕ
        run o = elim o [ some r ↦ r | none ↦ deliver proto egress dev t p plaintext ]

        go :
            (o : Option (Server S W D × Result ℕ))
            → handle_service proto egress t p epoch plaintext ≡ o
            → ((run o).0.tun ≡ t.tun) ⊎ IsDelivered t p plaintext (run o).0.tun
        go none e = tun-deliver p plaintext t
        go (some r) e = inl (tun-handle_service proto egress t p epoch plaintext r e)

    tun-handle_decrypted :
        (s : Server S W D) (now : ℕ) (frame : Bytes)
        → ((handle_decrypted proto egress dev s now p frame plaintext).0.tun ≡ s.tun)
          ⊎ IsDelivered s p plaintext
              (handle_decrypted proto egress dev s now p frame plaintext).0.tun
    unfolding handle_decrypted touch_activity
    tun-handle_decrypted s now frame = elim (Bool-cases (peer_at s p).closed) [
      | inl y ↦ inl (ground (arith, y))
      | inr n ↦ (elim (Bool-cases (ltb (length frame) (epoch_offset + 2))) [
        | inl y ↦ inl (ground (arith, n, y, touched.device))
        | inr m ↦
            subst (λ tun. (tun ≡ s.tun) ⊎ IsDelivered s p plaintext tun) (sym (reached n m))
              (IsDelivered-IsQuiet p plaintext s t
                (handle_epoch proto egress dev t p epoch plaintext).0.tun touched
                (tun-handle_epoch t epoch))
      ])
    ]
      where
        t : Server S W D
        t = put_peer s p (touch_activity (peer_at s p) now)

        epoch : ℕ
        epoch = be (take 2 (drop epoch_offset frame))

        reached :
            (peer_at s p).closed ≡ false
            → ltb (length frame) (epoch_offset + 2) ≡ false
            → (handle_decrypted proto egress dev s now p frame plaintext).0.tun
              ≡ (handle_epoch proto egress dev t p epoch plaintext).0.tun
        reached n m = ground (arith, n, m)

        touched : IsQuiet t s p
        touched = IsQuiet-put_peer s p (touch_activity (peer_at s p) now) refl refl refl

  module _ (s : Server S W D) (now : ℕ) (addr : AddrPort) (frame : Bytes) where
    tun-handle_established :
        (p : ℕ) (r : Result Bytes)
        → (decrypt proto (peer_at s p) frame).1 ≡ r
        → ((handle_established proto egress dev s now addr p frame).0.tun ≡ s.tun)
          ⊎ ((plaintext : Bytes) × ((decrypt proto (peer_at s p) frame).1 ≡ ok plaintext)
              × IsDelivered s p plaintext
                  (handle_established proto egress dev s now addr p frame).0.tun)
    unfolding handle_established
    tun-handle_established p (err e) h = inl (ground (arith, h))
    tun-handle_established p (ok plaintext) h =
        elim (subst (λ tun. (tun ≡ s.tun) ⊎ IsDelivered s p plaintext tun) (sym reached)
          (IsDelivered-IsQuiet p plaintext s t
            (handle_decrypted proto egress dev t now p frame plaintext).0.tun quiet
            (tun-handle_decrypted p plaintext t now frame))) [
              | inl e ↦ inl e
              | inr d ↦ inr (plaintext, h, d)
            ]
      where
        u : Server S W D
        u = put_peer s p (decrypt proto (peer_at s p) frame).0

        t : Server S W D
        t = roam proto egress dev u addr p

        reached :
            (handle_established proto egress dev s now addr p frame).0.tun
            ≡ (handle_decrypted proto egress dev t now p frame plaintext).0.tun
        reached = ground (arith, h)

        quiet : IsQuiet t s p
        quiet = IsQuiet-trans s p u t (IsQuiet-roam proto egress dev u p addr) (opened s p frame)

    -- Whatever datagram arrives, from whatever address: either the TUN device is as before, or it
    -- got one write, of the plaintext that the peer of the datagram's route id decrypted from it,
    -- whose source address that peer may use.
    pub handle_datagram-IsForwarded :
        ((handle_datagram proto egress dev s now addr frame).0.tun ≡ s.tun)
        ⊎ IsForwarded s frame (handle_datagram proto egress dev s now addr frame).0.tun
    unfolding handle_datagram
    handle_datagram-IsForwarded = elim (Option-cases (read_route_id frame)) [
      | inl n ↦ inl (ground (arith, n))
      | inr (route, e) ↦ go route e (get_by_route_id s.peers route) refl
    ]
      where
        go :
            (route : ℕ)
            → read_route_id frame ≡ some route
            → (r : Result ℕ) → get_by_route_id s.peers route ≡ r
            → ((handle_datagram proto egress dev s now addr frame).0.tun ≡ s.tun)
              ⊎ IsForwarded s frame (handle_datagram proto egress dev s now addr frame).0.tun
        go route e (err x) h = inl (ground (arith, e, h))
        go route e (ok p) h =
            subst (λ tun. (tun ≡ s.tun) ⊎ IsForwarded s frame tun) (sym reached)
              (elim (tun-handle_established p (decrypt proto (peer_at s p) frame).1 refl) [
                | inl same ↦ inl same
                | inr (plaintext, opened, d) ↦ inr record {
                  route = route;
                  peer = p;
                  plaintext = plaintext;
                  source = d.source;
                  read = e;
                  routed = h;
                  opened = opened;
                  sourced = d.sourced;
                  allowed = d.allowed;
                  written = d.written;
                }
              ])
          where
            reached :
                (handle_datagram proto egress dev s now addr frame).0.tun
                ≡ (handle_established proto egress dev s now addr p frame).0.tun
            reached = ground (arith, e, h)
