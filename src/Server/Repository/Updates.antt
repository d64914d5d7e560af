-- ===== src/Server/Repository/Updates.antt =====
-- A peer that changes in place keeps the invariant of the repository, if what the maps know of it
-- stays (repository.go and peer.go). And what the unchecked deletion of an internal address loses.
use tun_go.Base.{
  ℕ, ◌<◌, ◌≡◌, ◌≢◌, ◌∙◌, refl, sym, ap, subst, true, false, err, not_found, arith, ==_iff, ==_ne,
  Bool, length, ℕ_discrete, if◌then◌else◌,
}
use tun_go.Base.Table.{find_all, find-delete}
use tun_go.Ip.{unmap, contains}
use tun_go.Ip.Prefix.{AddrPort, addr_eq, bytes_eq, same_addr_iff}
use tun_go.Server.Peer.{Protocol, Egress, Peer, set_external_addr_port, update_egress_addr}
use tun_go.Server.Repository.{
  Repository, update, add, delete_locked, take_out, get_by_internal_addr_port, update_external_addr,
  modify,
}
use tun_go.Server.Repository.Tracking.{count}
use tun_go.Server.Repository.Indexed.{IsListed, IsIndexed}

-- What the maps know of a peer.
pub record IsSamePeer {S W : Type 0} (proto : Protocol S) (x y : Peer S W) : Type 0 where
  pub closed : x.closed ≡ y.closed
  pub internal_ip : x.internal_ip ≡ y.internal_ip
  pub client_pub_key : x.client_pub_key ≡ y.client_pub_key
  pub allowed_addrs : x.allowed_addrs ≡ y.allowed_addrs
  pub route_id : proto.route_id x.session ≡ proto.route_id y.session

module _ {S W : Type 0} (proto : Protocol S) (r : Repository S W) (p : ℕ) (x : Peer S W) where
  module _ (same : IsSamePeer proto x (r.heap p)) where
    modified : (q : ℕ) → IsSamePeer proto ((modify r p x).heap q) (r.heap q)
    unfolding modify
    modified q = elim (ℕ_discrete p q) [
      | yes e ↦
          subst (λ (t : ℕ). IsSamePeer proto (update p x r.heap t) (r.heap t)) e
            (rw ((==_iff p p).1 refl) same)
      | no n ↦ rw (==_ne p q n) unchanged
    ]
      where
        unchanged : IsSamePeer proto (r.heap q) (r.heap q)
        unchanged = record {
          closed = refl;
          internal_ip = refl;
          client_pub_key = refl;
          allowed_addrs = refl;
          route_id = refl;
        }

    modify-IsListed : (q : ℕ) → IsListed r q → IsListed (modify r p x) q
    unfolding modify
    modify-IsListed q l =
        let s = modified q in
        record {
          live = s.closed ∙ l.live;
          plain = ap unmap s.internal_ip ∙ l.plain ∙ sym s.internal_ip;
          tracked = λ long.
              ap (λ k. count q (find_all k r.pub_key_to_peers)) s.client_pub_key
              ∙ l.tracked (subst (λ k. 0 < length k) s.client_pub_key long);
        }

    pub modify-IsIndexed : IsIndexed proto r → IsIndexed proto (modify r p x)
    unfolding modify
    modify-IsIndexed v = record {
      internal = λ a q h.
          let (l, here) = v.internal a q h in
          (modify-IsListed q l, ap unmap (modified q).internal_ip ∙ here);
      routes = λ id q h.
          let (l, here) = v.routes id q h in (modify-IsListed q l, (modified q).route_id ∙ here);
      allowed = λ a q h.
          let (l, here) = v.allowed a q h in
          (modify-IsListed q l, ap (λ t. contains t a) (modified q).allowed_addrs ∙ here);
      keys = λ k q h.
          let (live, own, once, long) = v.keys k q h in
          ((modified q).closed ∙ live, (modified q).client_pub_key ∙ own, once, long);
    }

module _ {S W : Type 0} (proto : Protocol S) (egress : Egress W) (r : Repository S W) (p : ℕ) where
  roamed :
      (a : AddrPort)
      → IsSamePeer proto
          (update_egress_addr egress (set_external_addr_port (r.heap p) a) a)
          (r.heap p)
  unfolding set_external_addr_port update_egress_addr
  roamed a = record {
    closed = refl;
    internal_ip = refl;
    client_pub_key = refl;
    allowed_addrs = refl;
    route_id = refl;
  }

  pub update_external_addr-IsIndexed :
      (a : AddrPort) → IsIndexed proto r → IsIndexed proto (update_external_addr egress r p a)
  unfolding update_external_addr
  update_external_addr-IsIndexed a v = go (r.heap p).closed
    where
      go :
          (b : Bool)
          → IsIndexed proto (
              if b
              then r
              else modify r p (update_egress_addr egress (set_external_addr_port (r.heap p) a) a))
      go true = v
      go false =
          modify-IsIndexed proto r p
            (update_egress_addr egress (set_external_addr_port (r.heap p) a) a) (roamed a) v

module _ {S W : Type 0} (proto : Protocol S) (egress : Egress W) (r : Repository S W)
    (p q : ℕ) where
  -- If two different open peers are added under one internal address, deleting the first takes away
  -- the entry of the second: the lookup of its address fails, while it is still open.
  pub replaced_lost :
      p ≢ q
      → (r.heap p).closed ≡ false
      → (r.heap q).closed ≡ false
      → unmap (r.heap p).internal_ip ≡ unmap (r.heap q).internal_ip
      → (get_by_internal_addr_port
            (delete_locked proto egress (add proto (add proto r p) q) p)
            (r.heap q).internal_ip
          ≡ err not_found)
        × (((delete_locked proto egress (add proto (add proto r p) q) p).heap q).closed ≡ false)
  unfolding delete_locked take_out add get_by_internal_addr_port
  replaced_lost ne live_p live_q shared = (
    ground (
      arith,
      live_p,
      find-delete (unmap (r.heap p).internal_ip) (unmap (r.heap q).internal_ip)
          (add proto (add proto r p) q).internal_ip_to_peer,
      same_addr_iff (unmap (r.heap p).internal_ip) (unmap (r.heap q).internal_ip),
    ),
    ground (arith, live_p, live_q, ne, ==_iff p q),
  )
