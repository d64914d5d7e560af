-- ===== src/Server/Repository/Deletion.antt =====
-- Deleting a peer keeps the invariant of the repository (repository.go): its entries go and nothing
-- else does.
use tun_go.Base.{
  ℕ, ◌-◌, ◌<◌, ◌≤◌, ◌≡◌, ◌≢◌, ◌∙◌, sym, ap, subst, inl, inr, true, false, some, Bytes, length,
  arith, ==_iff, Bool-cases, Option-cases, ℕ_discrete, dec_lt, if◌then◌else◌,
}
use tun_go.Base.Table.{nat_eq, find, find_all, find-delete}
use tun_go.Ip.{Addr, unmap, contains, same}
use tun_go.Ip.Prefix.{bytes_eq, addr_eq, same_addr_iff, same_iff}
use tun_go.Server.Peer.{Protocol, Egress}
use tun_go.Server.Repository.{Repository, take_out, delete_locked, delete_own, untrack}
use tun_go.Server.Repository.Tracking.{count, hit, count-untrack, count-untrack_ne}
use tun_go.Server.Repository.Owned.{find-delete_own, find-delete_all_own}
use tun_go.Server.Repository.Indexed.{IsListed, IsIndexed}

module _ {S W : Type 0} (proto : Protocol S) (egress : Egress W) (r : Repository S W) (p : ℕ) where
  -- Another peer's listing outlives a deletion.
  take_out-IsListed : (q : ℕ) → q ≢ p → IsListed r q → IsListed (take_out proto egress r p) q
  unfolding take_out
  take_out-IsListed q ne l = record {
    live = ground (arith, ==_iff p q);
    plain = ground (arith, ==_iff p q);
    tracked = λ h. ground (
      arith,
      count-untrack_ne p q (r.heap p).client_pub_key (r.heap q).client_pub_key r.pub_key_to_peers
          ne,
    );
  }

module _ {S W : Type 0} (proto : Protocol S) (egress : Egress W) (r : Repository S W) (p : ℕ) where
  -- What is left in each map after the peer is taken out was there and is another's.
  pub take_out-internal :
      IsIndexed proto r
      → (a : Addr) (q : ℕ) → find a (take_out proto egress r p).internal_ip_to_peer ≡ some q
      → (find a r.internal_ip_to_peer ≡ some q) × (q ≢ p)
  unfolding take_out
  take_out-internal v a q h = (there, λ own. clash own (v.internal a q there).1)
    where
      there : find a r.internal_ip_to_peer ≡ some q
      there = ground (arith, find-delete (unmap (r.heap p).internal_ip) a r.internal_ip_to_peer)

      clash : q ≡ p → unmap (r.heap q).internal_ip ≡ a → ⊥
      clash own here = ground (
        arith,
        find-delete (unmap (r.heap p).internal_ip) a r.internal_ip_to_peer,
        same_addr_iff (unmap (r.heap p).internal_ip) a,
        ap (λ (t : ℕ). unmap (r.heap t).internal_ip) own,
      )

  pub take_out-routes :
      IsIndexed proto r
      → (id q : ℕ) → find id (take_out proto egress r p).route_id_to_peer ≡ some q
      → (find id r.route_id_to_peer ≡ some q) × (q ≢ p)
  unfolding take_out
  take_out-routes v id q h = elim (Option-cases (proto.route_id (r.heap p).session)) [
    | inl e ↦
        (let there : find id r.route_id_to_peer ≡ some q = ground (arith, e) in
          (
            there,
            λ own. ground (
              arith,
              e,
              (v.routes id q there).1,
              ap (λ (t : ℕ). proto.route_id (r.heap t).session) own,
            ),
          ))
    | inr (k, e) ↦
        (let left : find id (delete_own p k r.route_id_to_peer) ≡ some q = ground (arith, e) in
          let (there, own_not) = find-delete_own p k id r.route_id_to_peer q left in
          (
            there,
            λ own. ground (
              arith,
              e,
              (v.routes id q there).1,
              own_not,
              own,
              ap (λ (t : ℕ). proto.route_id (r.heap t).session) own,
            ),
          ))
  ]

  pub take_out-allowed :
      IsIndexed proto r
      → (a : Addr) (q : ℕ) → find a (take_out proto egress r p).allowed_addr_to_peer ≡ some q
      → (find a r.allowed_addr_to_peer ≡ some q) × (q ≢ p)
  unfolding take_out
  take_out-allowed v a q h =
      let (there, own_not) =
        find-delete_all_own p (r.heap p).allowed_addrs a r.allowed_addr_to_peer q h in
      (
        there,
        λ own.
            own_not
              (subst (λ (t : ℕ). contains (r.heap t).allowed_addrs a ≡ true) own
                (v.allowed a q there).1)
              own,
      )

  -- After the deletion the peer is listed nowhere.
  pub count-take_out :
      IsIndexed proto r
      → (k : Bytes) → count p (find_all k (take_out proto egress r p).pub_key_to_peers) ≡ 0
  unfolding take_out
  count-take_out v k = elim (ℕ_discrete (length key) 0) [
    | yes e ↦ unfold untrack in rw (e, untrack) (keyless e)
    | no n ↦ keyed (count-untrack p p key k r.pub_key_to_peers (omega (arith, n)))
  ]
    where
      key : Bytes
      key = (r.heap p).client_pub_key

      listed : ℕ
      listed = count p (find_all k r.pub_key_to_peers)

      keyless : length key ≡ 0 → listed ≡ 0
      keyless e = elim (dec_lt 0 listed) [
        | yes l ↦ (let (_, its, _, long) = v.keys k p l in absurd (omega (arith, ap length its)))
        | no n ↦ omega (arith, n)
      ]

      keyed :
          count p (find_all k (untrack p key r.pub_key_to_peers))
            ≡ listed - (if same key k then hit p p else 0)
          → count p (find_all k (untrack p key r.pub_key_to_peers)) ≡ 0
      keyed c = elim (dec_lt 0 listed) [
        | yes l ↦
            (let (_, its, once, _) = v.keys k p l in
              ground (arith, (same_iff key k).1 its, ==_iff p p))
        | no n ↦ ground (arith, n)
      ]

  pub count-take_out_le :
      IsIndexed proto r
      → (k : Bytes) (q : ℕ)
      → count q (find_all k (take_out proto egress r p).pub_key_to_peers)
        ≤ count q (find_all k r.pub_key_to_peers)
  unfolding take_out
  count-take_out_le v k q = elim (ℕ_discrete q p) [
    | yes e ↦ omega (
      arith,
      count-take_out v k,
      ap (λ (t : ℕ). count t (find_all k (take_out proto egress r p).pub_key_to_peers)) e,
    )
    | no ne ↦ omega (arith, count-untrack_ne p q (r.heap p).client_pub_key k r.pub_key_to_peers ne)
  ]

  take_out-keys :
      IsIndexed proto r
      → (k : Bytes) (q : ℕ) → 0 < count q (find_all k (take_out proto egress r p).pub_key_to_peers)
      → (count q (find_all k (take_out proto egress r p).pub_key_to_peers)
          ≡ count q (find_all k r.pub_key_to_peers))
        × (q ≢ p)
  take_out-keys v k q h = (
    unfold take_out in count-untrack_ne p q (r.heap p).client_pub_key k r.pub_key_to_peers other,
    other,
  )
    where
      other : q ≢ p
      other own = omega (
        arith,
        count-take_out v k,
        ap (λ (t : ℕ). count t (find_all k (take_out proto egress r p).pub_key_to_peers)) own,
      )

  pub heap-take_out : (q : ℕ) → q ≢ p → (take_out proto egress r p).heap q ≡ r.heap q
  unfolding take_out
  heap-take_out q ne = ground (arith, ==_iff p q)

  pub take_out-IsIndexed : IsIndexed proto r → IsIndexed proto (take_out proto egress r p)
  take_out-IsIndexed v = record {
    internal = λ a q h.
        let (there, ne) = take_out-internal v a q h in
        let (listed, own) = v.internal a q there in
        (
          take_out-IsListed proto egress r p q ne listed,
          ap (λ x. unmap x.internal_ip) (heap-take_out q ne) ∙ own,
        );
    routes = λ id q h.
        let (there, ne) = take_out-routes v id q h in
        let (listed, own) = v.routes id q there in
        (
          take_out-IsListed proto egress r p q ne listed,
          ap (λ x. proto.route_id x.session) (heap-take_out q ne) ∙ own,
        );
    allowed = λ a q h.
        let (there, ne) = take_out-allowed v a q h in
        let (listed, own) = v.allowed a q there in
        (
          take_out-IsListed proto egress r p q ne listed,
          ap (λ x. contains x.allowed_addrs a) (heap-take_out q ne) ∙ own,
        );
    keys = λ k q h.
        let (same_count, ne) = take_out-keys v k q h in
        let (live, own, once, long) = v.keys k q (omega (arith, h, same_count)) in
        (
          ap (λ x. x.closed) (heap-take_out q ne) ∙ live,
          ap (λ x. x.client_pub_key) (heap-take_out q ne) ∙ own,
          same_count ∙ once,
          long,
        );
  }

  pub delete_locked_live :
      (r.heap p).closed ≡ false → delete_locked proto egress r p ≡ take_out proto egress r p
  unfolding delete_locked
  delete_locked_live e = ap (λ b. if b then r else take_out proto egress r p) e

  pub delete_locked_closed : (r.heap p).closed ≡ true → delete_locked proto egress r p ≡ r
  unfolding delete_locked
  delete_locked_closed e = ap (λ b. if b then r else take_out proto egress r p) e

  pub delete_locked-IsIndexed : IsIndexed proto r → IsIndexed proto (delete_locked proto egress r p)
  delete_locked-IsIndexed v = elim (Bool-cases (r.heap p).closed) [
    | inl e ↦ subst (IsIndexed proto) (sym (delete_locked_closed e)) v
    | inr e ↦ subst (IsIndexed proto) (sym (delete_locked_live e)) (take_out-IsIndexed v)
  ]
