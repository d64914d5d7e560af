-- ===== src/Server/Repository/Lookups.antt =====
-- What the lookups of the repository promise (repository.go): the peer that comes out is open, is
-- allowed to send from the address that it was found by, and is tracked by its public key.
use tun_go.Base.{
  ℕ, ◌≡◌, ◌∙◌, sym, subst, inl, inr, true, List, [], ◌∷◌, some, ok, arith, Bool-cases, Option-cases,
  map,
}
use tun_go.Base.Table.{nat_eq, find}
use tun_go.Ip.{Addr, unmap}
use tun_go.Ip.Prefix.{bytes_eq, addr_eq}
use tun_go.Server.Peer.{Protocol, is_source_allowed}
use tun_go.Server.Peer.Sources.{
  is_source_allowed_internal, is_source_allowed_address, is_source_allowed-unmap,
}
use tun_go.Server.Repository.{
  Repository, get_by_internal_addr_port, get_by_route_id, scan, find_by_destination_ip,
}
use tun_go.Server.Repository.Indexed.{IsListed, IsIndexed}

module _ {S W : Type 0} (proto : Protocol S) (r : Repository S W) (v : IsIndexed proto r) where
  scan_lem :
      (a : Addr) (ks : List Addr) (p : ℕ)
      → scan r a ks ≡ ok p
      → IsListed r p × (is_source_allowed (r.heap p) a ≡ true)
  unfolding scan
  scan_lem a [] p h = absurd (cc)
  scan_lem a (k ∷ ks) p h = elim (Option-cases (find k r.internal_ip_to_peer)) [
    | inl e ↦ scan_lem a ks p (ground (arith, e))
    | inr (q, e) ↦ elim (Bool-cases (is_source_allowed (r.heap q) a)) [
      | inl allowed ↦
          (let own : q ≡ p = ground (arith, e, allowed) in
            (
              subst (IsListed r) own (v.internal k q e).0,
              subst (λ (t : ℕ). is_source_allowed (r.heap t) a ≡ true) own allowed,
            ))
      | inr denied ↦ scan_lem a ks p (ground (arith, e, denied))
    ]
  ]

  -- Cryptokey routing: a packet goes only to a peer that may send from the packet's destination.
  pub find_by_destination_ip-Allowed :
      (a : Addr) (p : ℕ)
      → find_by_destination_ip r a ≡ ok p
      → IsListed r p × (is_source_allowed (r.heap p) a ≡ true)
  unfolding find_by_destination_ip
  find_by_destination_ip-Allowed a p h =
      elim (Option-cases (find (unmap a) r.internal_ip_to_peer)) [
        | inr (q, e) ↦ by_internal q e (ground (arith, e))
        | inl e ↦ elim (Option-cases (find (unmap a) r.allowed_addr_to_peer)) [
          | inr (q, f) ↦ by_allowed q f (ground (arith, e, f))
          | inl f ↦
              (let (listed, allowed) =
                  scan_lem (unmap a) (map (λ e. e.0) r.internal_ip_to_peer) p
                    (ground (arith, e, f)) in
                (listed, unmapped allowed))
        ]
      ]
    where
      by_internal :
          (q : ℕ)
          → find (unmap a) r.internal_ip_to_peer ≡ some q
          → q ≡ p
          → IsListed r p × (is_source_allowed (r.heap p) a ≡ true)
      by_internal q e own =
          let (listed, here) = v.internal (unmap a) q e in
          let fits : is_source_allowed (r.heap q) a ≡ true =
            is_source_allowed_internal (r.heap q) a (sym (sym listed.plain ∙ here)) in
          (
            subst (IsListed r) own listed,
            subst (λ (t : ℕ). is_source_allowed (r.heap t) a ≡ true) own fits,
          )

      by_allowed :
          (q : ℕ)
          → find (unmap a) r.allowed_addr_to_peer ≡ some q
          → q ≡ p
          → IsListed r p × (is_source_allowed (r.heap p) a ≡ true)
      by_allowed q e own =
          let (listed, here) = v.allowed (unmap a) q e in
          let fits : is_source_allowed (r.heap q) a ≡ true =
            is_source_allowed_address (r.heap q) a here in
          (
            subst (IsListed r) own listed,
            subst (λ (t : ℕ). is_source_allowed (r.heap t) a ≡ true) own fits,
          )

      unmapped :
          is_source_allowed (r.heap p) (unmap a) ≡ true → is_source_allowed (r.heap p) a ≡ true
      unmapped allowed = is_source_allowed-unmap (r.heap p) a ∙ allowed

  pub get_by_internal-Allowed :
      (a : Addr) (p : ℕ)
      → get_by_internal_addr_port r a ≡ ok p
      → IsListed r p × ((r.heap p).internal_ip ≡ unmap a)
  unfolding get_by_internal_addr_port
  get_by_internal-Allowed a p h =
      let (listed, here) = v.internal (unmap a) p (ground arith) in
      (listed, sym listed.plain ∙ here)

  pub get_by_route_id-Routed :
      (id p : ℕ)
      → get_by_route_id r id ≡ ok p
      → IsListed r p × (proto.route_id (r.heap p).session ≡ some id)
  unfolding get_by_route_id
  get_by_route_id-Routed id p h = v.routes id p (ground arith)
