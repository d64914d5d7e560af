-- ===== src/Server/Repository/Addition.antt =====
-- Adding a peer keeps the invariant of the repository (repository.go).
use tun_go.Base.{
  ℕ, ◌+◌, ◌<◌, ◌≡◌, ◌∙◌, sym, ap, subst, inl, inr, true, false, some, Bytes, length, arith, ==_iff,
  Bool-cases, Option-cases, ℕ_discrete, if◌then◌else◌,
}
use tun_go.Base.Table.{nat_eq, find, find_all, put, find-put}
use tun_go.Ip.{Addr, unmap, contains, same, same_addr}
use tun_go.Ip.Prefix.{bytes_eq, addr_eq, same_addr_iff, same_iff}
use tun_go.Server.Peer.{Protocol}
use tun_go.Server.Repository.{Repository, add, track}
use tun_go.Server.Repository.Tracking.{count, hit, count-track, count-track_ne}
use tun_go.Server.Repository.Owned.{find-put_all}
use tun_go.Server.Repository.Indexed.{IsListed, IsIndexed}

module _ {S W : Type 0} (proto : Protocol S) (r : Repository S W) (p : ℕ) where
  -- The peer is open and not listed yet.
  module _ (live : (r.heap p).closed ≡ false)
      (plain : unmap (r.heap p).internal_ip ≡ (r.heap p).internal_ip)
      (fresh : count p (find_all (r.heap p).client_pub_key r.pub_key_to_peers) ≡ 0) where
    added-IsListed : IsListed (add proto r p) p
    unfolding add track
    added-IsListed = record {
      live = live;
      plain = plain;
      tracked = λ h. ground (
        arith,
        count-track p p (r.heap p).client_pub_key (r.heap p).client_pub_key r.pub_key_to_peers h,
        same_iff (r.heap p).client_pub_key (r.heap p).client_pub_key,
      );
    }

    add-IsListed : (q : ℕ) → IsListed r q → IsListed (add proto r p) q
    unfolding add
    add-IsListed q l = elim (ℕ_discrete q p) [
      | yes e ↦ subst (IsListed (add proto r p)) (sym e) added-IsListed
      | no ne ↦ record {
        live = l.live;
        plain = l.plain;
        tracked = λ h.
            count-track_ne p q (r.heap p).client_pub_key (r.heap q).client_pub_key
              r.pub_key_to_peers ne
            ∙ l.tracked h;
      }
    ]

    add-internal :
        IsIndexed proto r
        → (a : Addr) (q : ℕ) → find a (add proto r p).internal_ip_to_peer ≡ some q
        → IsListed (add proto r p) q × (unmap (r.heap q).internal_ip ≡ a)
    unfolding add
    add-internal v a q h = elim (Bool-cases (same_addr (unmap (r.heap p).internal_ip) a)) [
      | inl e ↦
          (let own : p ≡ q = ground (arith, e, put_lem) in
            (
              subst (IsListed (add proto r p)) own added-IsListed,
              ap (λ (t : ℕ). unmap (r.heap t).internal_ip) (sym own)
                  ∙ (same_addr_iff (unmap (r.heap p).internal_ip) a).0 e,
            ))
      | inr e ↦
          (let there : find a r.internal_ip_to_peer ≡ some q = ground (arith, e, put_lem) in
            let (listed, here) = v.internal a q there in (add-IsListed q listed, here))
    ]
      where
        put_lem : find a (put (unmap (r.heap p).internal_ip) p r.internal_ip_to_peer) ≡ (
            if same_addr (unmap (r.heap p).internal_ip) a
            then some p
            else find a r.internal_ip_to_peer)
        put_lem = find-put (unmap (r.heap p).internal_ip) a p r.internal_ip_to_peer

    add-routes :
        IsIndexed proto r
        → (id q : ℕ) → find id (add proto r p).route_id_to_peer ≡ some q
        → IsListed (add proto r p) q × (proto.route_id (r.heap q).session ≡ some id)
    unfolding add
    add-routes v id q h = elim (Option-cases (proto.route_id (r.heap p).session)) [
      | inl e ↦
          (let (listed, here) = v.routes id q (ground (arith, e)) in (add-IsListed q listed, here))
      | inr (k, e) ↦ keyed k e (ground (arith, e)) (ℕ_discrete k id)
    ]
      where
        keyed :
            (k : ℕ)
            → proto.route_id (r.heap p).session ≡ some k
            → find id (put k p r.route_id_to_peer) ≡ some q
            → Dec (k ≡ id)
            → IsListed (add proto r p) q × (proto.route_id (r.heap q).session ≡ some id)
        keyed k e there (yes same) =
            let own : p ≡ q = ground (arith, find-put k id p r.route_id_to_peer, ==_iff k id) in
            (
              subst (IsListed (add proto r p)) own added-IsListed,
              ap (λ (t : ℕ). proto.route_id (r.heap t).session) (sym own) ∙ e ∙ ap some same,
            )
        keyed k e there (no ne) =
            let old : find id r.route_id_to_peer ≡ some q =
              ground (arith, find-put k id p r.route_id_to_peer, ==_iff k id) in
            let (listed, here) = v.routes id q old in (add-IsListed q listed, here)

    add-allowed :
        IsIndexed proto r
        → (a : Addr) (q : ℕ) → find a (add proto r p).allowed_addr_to_peer ≡ some q
        → IsListed (add proto r p) q × (contains (r.heap q).allowed_addrs a ≡ true)
    unfolding add
    add-allowed v a q h =
        elim (find-put_all p (r.heap p).allowed_addrs a r.allowed_addr_to_peer q h) [
          | inl own ↦ (
            subst (IsListed (add proto r p)) (sym own.0) added-IsListed,
            ap (λ (t : ℕ). contains (r.heap t).allowed_addrs a) own.0 ∙ own.1,
          )
          | inr old ↦ (let (listed, here) = v.allowed a q old in (add-IsListed q listed, here))
        ]

    add-keys_self :
        IsIndexed proto r
        → (k : Bytes) → 0 < count p (find_all k (add proto r p).pub_key_to_peers)
        → ((r.heap p).client_pub_key ≡ k)
          × (count p (find_all k (add proto r p).pub_key_to_peers) ≡ 1)
          × (0 < length k)
    unfolding add
    add-keys_self v k h = elim (ℕ_discrete (length key) 0) [
      | yes e ↦ absurd (untracked (unfold track in rw (e, track) at h) e)
      | no n ↦
          tracked (omega (arith, n)) (count-track p p key k r.pub_key_to_peers (omega (arith, n)))
    ]
      where
        key : Bytes
        key = (r.heap p).client_pub_key

        listed : ℕ
        listed = count p (find_all k r.pub_key_to_peers)

        untracked : 0 < listed → length key ≡ 0 → ⊥
        untracked l e =
            let (_, own, _, long) = v.keys k p l in omega (arith, long, e, ap length own)

        unlisted : key ≡ k → listed ≡ 0
        unlisted own = ap (λ t. count p (find_all t r.pub_key_to_peers)) (sym own) ∙ fresh

        foreign : 0 < listed → key ≡ k
        foreign l = (v.keys k p l).1

        tracked :
            0 < length key
            → count p (find_all k (track p key r.pub_key_to_peers))
              ≡ listed + (if same key k then hit p p else 0)
            → (key ≡ k)
              × (count p (find_all k (track p key r.pub_key_to_peers)) ≡ 1)
              × (0 < length k)
        tracked long c = elim (Bool-cases (same key k)) [
          | inl e ↦
              (let own : key ≡ k = (same_iff key k).0 e in
                (
                  own,
                  ground (arith, e, c, unlisted own, ==_iff p p),
                  omega (arith, long, ap length own),
                ))
          | inr e ↦ absurd (ground (arith, e, (same_iff key k).1 (foreign (ground (arith, e)))))
        ]

    pub add-IsIndexed : IsIndexed proto r → IsIndexed proto (add proto r p)
    unfolding add
    add-IsIndexed v = record {
      internal = add-internal v;
      routes = add-routes v;
      allowed = add-allowed v;
      keys = λ k q h. keyed k q h (ℕ_discrete q p);
    }
      where
        keyed :
            (k : Bytes) (q : ℕ)
            → 0 < count q (find_all k (add proto r p).pub_key_to_peers)
            → Dec (q ≡ p)
            → ((r.heap q).closed ≡ false)
              × ((r.heap q).client_pub_key ≡ k)
              × (count q (find_all k (add proto r p).pub_key_to_peers) ≡ 1)
              × (0 < length k)
        keyed k q h (yes e) =
            let now : 0 < count p (find_all k (add proto r p).pub_key_to_peers) =
              subst (λ (t : ℕ). 0 < count t (find_all k (add proto r p).pub_key_to_peers)) e h in
            let (own, once, long) = add-keys_self v k now in
            (
              ap (λ (t : ℕ). (r.heap t).closed) e ∙ live,
              ap (λ (t : ℕ). (r.heap t).client_pub_key) e ∙ own,
              ap (λ (t : ℕ). count t (find_all k (add proto r p).pub_key_to_peers)) e ∙ once,
              long,
            )
        keyed k q h (no ne) =
            let same_count : count q (find_all k (add proto r p).pub_key_to_peers)
                ≡ count q (find_all k r.pub_key_to_peers) =
              count-track_ne p q (r.heap p).client_pub_key k r.pub_key_to_peers ne in
            let (open_still, own, once, long) = v.keys k q (omega (arith, h, same_count)) in
            (open_still, own, same_count ∙ once, long)
