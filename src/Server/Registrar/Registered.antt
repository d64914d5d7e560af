-- ===== src/Server/Registrar/Registered.antt =====
-- A finished handshake replaces the session under its address and disturbs no other
-- (udp/registration.go and tcp/registration.go over repository.go).
use tun_go.Base.{
  ℕ, ◌≡◌, ◌≢◌, ◌∙◌, ◌⊎◌, refl, sym, ap, subst, true, some, arith, Option-cases, Bool-cases, inl,
  inr, Result, ok, err, not_found, if◌then◌else◌,
}
use tun_go.Base.Table.{nat_eq, find}
use tun_go.Ip.{Addr, unmap, same_addr}
use tun_go.Ip.Prefix.{AddrPort, Prefix, addr_eq, bytes_eq, same_addr_iff, unmap-unmap}
use tun_go.Server.Peer.{Protocol, Egress, Peer, new_peer_with_auth}
use tun_go.Server.Repository.{Repository, get_by_internal_addr_port}
use tun_go.Server.Repository.Indexed.{IsIndexed}
use tun_go.Server.Registrar.{Authenticated, with_ipv6, evict_stale, register}
use tun_go.Server.Registrar.Installed.{
  IsFresh, evict_stale-IsFresh, evict_stale-IsIndexed, find-evict_stale, evicted-closed, installed,
  installed-IsIndexed, find-installed, heap-installed,
}

-- The end of a registration.
module _ {S W : Type 0} (proto : Protocol S) (egress : Egress W) (r : Repository S W) where
  module _ (subnet ipv6 : Prefix) (who : Authenticated) (s : S) (w : W) (external : AddrPort)
      (now p : ℕ) where
    abbrev registered : Repository S W × Result Addr
    registered = register proto egress r subnet ipv6 who (ok s) w external now p

    abbrev newcomer : Addr → Peer S W
    newcomer ip =
        new_peer_with_auth s w ip external who.client_pub_key
          (with_ipv6 ipv6 who.client_id who.allowed_ips) now

    register_ok :
        (ip : Addr)
        → registered.1 ≡ ok ip
        → registered.0 ≡ installed proto (evict_stale proto egress r ip) p (newcomer ip)
    unfolding register
    register_ok ip h = ground (arith, h)

    module _ (ip : Addr) (v : IsIndexed proto r) (fresh : IsFresh r p)
        (h : registered.1 ≡ ok ip) where
      abbrev r' : Repository S W
      r' = evict_stale proto egress r ip

      register-IsIndexed : IsIndexed proto registered.0
      register-IsIndexed = subst (IsIndexed proto) (sym (register_ok ip h)) (
          installed-IsIndexed proto r' p (newcomer ip)
            (evict_stale-IsIndexed proto egress r p v fresh ip)
            (evict_stale-IsFresh proto egress r p v fresh ip) (unfold new_peer_with_auth in refl)
            (unfold new_peer_with_auth in unmap-unmap ip))

      find-register :
          (b : Addr)
          → find b registered.0.internal_ip_to_peer
            ≡ (if same_addr (unmap ip) b then some p else find b r'.internal_ip_to_peer)
      find-register b =
          ap (λ t. find b t.internal_ip_to_peer) (register_ok ip h)
          ∙ find-installed proto r' p (newcomer ip) b
          ∙ ap (λ t. if same_addr t b then some p else find b r'.internal_ip_to_peer)
              (unfold new_peer_with_auth in unmap-unmap ip)

      -- The session that was under the address before, if there was one, is closed.
      replaced :
          (get_by_internal_addr_port r ip ≡ err not_found)
          ⊎ ((q : ℕ) × (get_by_internal_addr_port r ip ≡ ok q)
              × ((registered.0.heap q).closed ≡ true))
      unfolding get_by_internal_addr_port
      replaced = elim (Option-cases (find (unmap ip) r.internal_ip_to_peer)) [
        | inl e ↦ inl (ground (arith, e))
        | inr (q, found) ↦
            (let ne : q ≢ p = λ own. fresh.no_internal (unmap ip) (found ∙ ap some own) in
              inr (
                q,
                ground (arith, found),
                ap (λ t. (t.heap q).closed) (register_ok ip h)
                    ∙ ap (λ t. t.closed) (heap-installed proto r' p (newcomer ip) q ne)
                    ∙ evicted-closed proto egress r p v fresh ip q found,
              ))
      ]

      -- A successful registration under a new pointer keeps the invariant of a repository;
      -- afterwards the assigned address leads to the new peer and every other address to what it
      -- led to before, and the session that was under the address, if there was one, is closed.
      pub register_lem :
          (a : Addr)
          → IsIndexed proto registered.0
            × (get_by_internal_addr_port registered.0 a
                ≡ (if same_addr (unmap ip) (unmap a) then ok p else get_by_internal_addr_port r a))
            × ((get_by_internal_addr_port r ip ≡ err not_found)
                ⊎ ((q : ℕ) × (get_by_internal_addr_port r ip ≡ ok q)
                    × ((registered.0.heap q).closed ≡ true)))
      unfolding get_by_internal_addr_port
      register_lem a = (
        register-IsIndexed,
        elim (Bool-cases (same_addr (unmap ip) (unmap a))) [
          | inl y ↦ ground (arith, find-register (unmap a), y)
          | inr n ↦
              (let ne : unmap ip ≢ unmap a =
                  λ e. cc (n, (same_addr_iff (unmap ip) (unmap a)).1 e) in
                ground (
                  arith,
                  find-register (unmap a),
                  n,
                  find-evict_stale proto egress r p v fresh ip (unmap a) ne,
                ))
        ],
        replaced,
      )
