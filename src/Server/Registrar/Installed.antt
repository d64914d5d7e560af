-- ===== src/Server/Registrar/Installed.antt =====
-- Closing a stale session and putting a peer under a new pointer keep the invariant of the repository (udp/registration.go and repository.go).
use tun_go.Base.{
  ℕ, ◌<◌, ◌≡◌, ◌≢◌, ◌∙◌, refl, sym, ap, subst, true, false, none, some, Bytes, length, arith,
  Option-cases, Bool-cases, inl, inr, Result, ok, err, if◌then◌else◌, ==_iff,
}
use tun_go.Base.Table.{nat_eq, find, find_all, find-put, find-delete}
use tun_go.Ip.{Addr, unmap, contains, same_addr}
use tun_go.Ip.Prefix.{addr_eq, bytes_eq, same_addr_iff}
use tun_go.Server.Peer.{Protocol, Egress, Peer}
use tun_go.Server.Repository.{
  Repository, modify, update, get_by_internal_addr_port, add, delete_locked, take_out,
}
use tun_go.Server.Repository.Tracking.{count}
use tun_go.Server.Repository.Indexed.{IsListed, IsIndexed}
use tun_go.Server.Repository.Deletion.{
  take_out-internal, take_out-routes, take_out-allowed, delete_locked_live, delete_locked_closed,
  delete_locked-IsIndexed,
}
use tun_go.Server.Repository.Addition.{add-IsIndexed}
use tun_go.Server.Repository.Termination.{count-delete_le, closed-delete}
use tun_go.Server.Registrar.{evict_stale}

-- No map knows the pointer yet.
pub record IsFresh {S W : Type 0} (r : Repository S W) (p : ℕ) : Type 0 where
  pub no_internal : (a : Addr) → find a r.internal_ip_to_peer ≢ some p
  pub no_route : (id : ℕ) → find id r.route_id_to_peer ≢ some p
  pub no_allowed : (a : Addr) → find a r.allowed_addr_to_peer ≢ some p
  pub unlisted : (k : Bytes) → count p (find_all k r.pub_key_to_peers) ≡ 0

module _ {S W : Type 0} (proto : Protocol S) (r : Repository S W) (p : ℕ) (x : Peer S W) where
  module _ (fresh : IsFresh r p) where
    -- Writing to a pointer that no map knows.
    pub heap-modify : (q : ℕ) → q ≢ p → (modify r p x).heap q ≡ r.heap q
    unfolding modify
    heap-modify q ne = ground (arith, ==_iff p q)

    pub modify-IsListed : (q : ℕ) → q ≢ p → IsListed r q → IsListed (modify r p x) q
    modify-IsListed q ne l =
        let same = heap-modify q ne in
        record {
          live = ap (λ t. t.closed) same ∙ l.live;
          plain = ap (λ t. unmap t.internal_ip) same ∙ l.plain ∙ sym (ap (λ t. t.internal_ip) same);
          tracked = λ long.
              unfold modify in
              ap (λ t. count q (find_all t.client_pub_key r.pub_key_to_peers)) same
              ∙ l.tracked (subst (λ t. 0 < length t.client_pub_key) same long);
        }

    pub modify-IsIndexed : IsIndexed proto r → IsIndexed proto (modify r p x)
    unfolding modify
    modify-IsIndexed v = record {
      internal = λ a q h.
          let ne : q ≢ p = λ e. fresh.no_internal a (h ∙ ap some e) in
          let (l, own) = v.internal a q h in
          (modify-IsListed q ne l, ap (λ t. unmap t.internal_ip) (heap-modify q ne) ∙ own);
      routes = λ id q h.
          let ne : q ≢ p = λ e. fresh.no_route id (h ∙ ap some e) in
          let (l, own) = v.routes id q h in
          (modify-IsListed q ne l, ap (λ t. proto.route_id t.session) (heap-modify q ne) ∙ own);
      allowed = λ a q h.
          let ne : q ≢ p = λ e. fresh.no_allowed a (h ∙ ap some e) in
          let (l, own) = v.allowed a q h in
          (modify-IsListed q ne l, ap (λ t. contains t.allowed_addrs a) (heap-modify q ne) ∙ own);
      keys = λ k q h.
          let ne : q ≢ p = λ e. omega (
            arith,
            h,
            fresh.unlisted k,
            ap (λ (t : ℕ). count t (find_all k r.pub_key_to_peers)) e,
          ) in
          let (live, own, once, long) = v.keys k q h in
          (
            ap (λ t. t.closed) (heap-modify q ne) ∙ live,
            ap (λ t. t.client_pub_key) (heap-modify q ne) ∙ own,
            once,
            long,
          );
    }

module _ {S W : Type 0} (proto : Protocol S) (egress : Egress W) (r : Repository S W) (p : ℕ) where
  module _ (v : IsIndexed proto r) (fresh : IsFresh r p) where
    pub delete-IsFresh : (q : ℕ) → IsFresh (delete_locked proto egress r q) p
    delete-IsFresh q = elim (Bool-cases (r.heap q).closed) [
      | inl e ↦ subst (λ t. IsFresh t p) (sym (delete_locked_closed proto egress r q e)) fresh
      | inr e ↦
          subst (λ t. IsFresh t p) (sym (delete_locked_live proto egress r q e))
            (record {
              no_internal =
                  λ a h. fresh.no_internal a (take_out-internal proto egress r q v a p h).0;
              no_route = λ id h. fresh.no_route id (take_out-routes proto egress r q v id p h).0;
              no_allowed = λ a h. fresh.no_allowed a (take_out-allowed proto egress r q v a p h).0;
              unlisted = λ k. omega (
                arith,
                fresh.unlisted k,
                ap (λ t. count p (find_all k t.pub_key_to_peers))
                    (delete_locked_live proto egress r q e),
                count-delete_le proto egress r q p k v,
              );
            })
    ]

    pub evict_stale-IsFresh : (a : Addr) → IsFresh (evict_stale proto egress r a) p
    unfolding evict_stale
    evict_stale-IsFresh a = go (get_by_internal_addr_port r a)
      where
        go :
            (found : Result ℕ)
            → IsFresh (elim found [ err e ↦ r | ok q ↦ delete_locked proto egress r q ]) p
        go (err e) = fresh
        go (ok q) = delete-IsFresh q

    pub evict_stale-IsIndexed : (a : Addr) → IsIndexed proto (evict_stale proto egress r a)
    unfolding evict_stale
    evict_stale-IsIndexed a = go (get_by_internal_addr_port r a)
      where
        go :
            (found : Result ℕ)
            → IsIndexed proto (elim found [ err e ↦ r | ok q ↦ delete_locked proto egress r q ])
        go (err e) = v
        go (ok q) = delete_locked-IsIndexed proto egress r q v

    pub evict_found :
        (a : Addr) (q : ℕ)
        → find (unmap a) r.internal_ip_to_peer ≡ some q
        → evict_stale proto egress r a ≡ delete_locked proto egress r q
    unfolding evict_stale get_by_internal_addr_port
    evict_found a q e = rw (e, evict_stale) refl

    pub evict_none :
        (a : Addr) → find (unmap a) r.internal_ip_to_peer ≡ none → evict_stale proto egress r a ≡ r
    unfolding evict_stale get_by_internal_addr_port
    evict_none a e = rw (e, evict_stale) refl

    -- The entry of another address stays.
    pub find-evict_stale :
        (a b : Addr)
        → unmap a ≢ b
        → find b (evict_stale proto egress r a).internal_ip_to_peer ≡ find b r.internal_ip_to_peer
    find-evict_stale a b other = elim (Option-cases (find (unmap a) r.internal_ip_to_peer)) [
      | inl e ↦ ap (λ t. find b t.internal_ip_to_peer) (evict_none a e)
      | inr (q, e) ↦
          (let (l, own) = v.internal (unmap a) q e in
            ap (λ t. find b t.internal_ip_to_peer)
              (evict_found a q e ∙ delete_locked_live proto egress r q l.live)
            ∙ kept q own)
    ]
      where
        kept :
            (q : ℕ)
            → unmap (r.heap q).internal_ip ≡ unmap a
            → find b (take_out proto egress r q).internal_ip_to_peer ≡ find b r.internal_ip_to_peer
        kept q own =
            unfold take_out in
            ground (
              arith,
              find-delete (unmap (r.heap q).internal_ip) b r.internal_ip_to_peer,
              same_addr_iff (unmap (r.heap q).internal_ip) b,
              own,
              other,
            )

    pub evicted-closed :
        (a : Addr) (q : ℕ)
        → find (unmap a) r.internal_ip_to_peer ≡ some q
        → ((evict_stale proto egress r a).heap q).closed ≡ true
    evicted-closed a q e =
        ap (λ t. (t.heap q).closed) (evict_found a q e) ∙ closed-delete proto egress r q

-- A new peer behind a fresh pointer.
module _ {S W : Type 0} (proto : Protocol S) (r : Repository S W) (p : ℕ) (x : Peer S W) where
  abbrev pub installed : Repository S W
  installed = add proto (modify r p x) p

  pub heap-modify_self : (modify r p x).heap p ≡ x
  unfolding modify
  heap-modify_self = ground (arith, ==_iff p p)

  pub installed-IsIndexed :
      IsIndexed proto r
      → IsFresh r p
      → x.closed ≡ false
      → unmap x.internal_ip ≡ x.internal_ip
      → IsIndexed proto installed
  installed-IsIndexed v fresh live plain =
      add-IsIndexed proto (modify r p x) p (ap (λ t. t.closed) heap-modify_self ∙ live)
        (ap (λ t. unmap t.internal_ip) heap-modify_self
          ∙ plain
          ∙ sym (ap (λ t. t.internal_ip) heap-modify_self))
        (unfold modify in fresh.unlisted (update p x r.heap p).client_pub_key)
        (modify-IsIndexed proto r p x fresh v)

  pub find-installed :
      (b : Addr)
      → find b installed.internal_ip_to_peer
        ≡ (if same_addr (unmap x.internal_ip) b then some p else find b r.internal_ip_to_peer)
  unfolding add
  find-installed b =
      find-put (unmap ((modify r p x).heap p).internal_ip) b p (modify r p x).internal_ip_to_peer
      ∙ (unfold modify in
          ap
            (λ t.
              if same_addr (unmap t.internal_ip) b then some p else find b r.internal_ip_to_peer)
            heap-modify_self)

  pub heap-installed : (q : ℕ) → q ≢ p → installed.heap q ≡ r.heap q
  unfolding add modify
  heap-installed q ne = ground (arith, ==_iff p q)
