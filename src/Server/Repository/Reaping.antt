-- ===== src/Server/Repository/Reaping.antt =====
-- The reaping of idle sessions (`ReapIdle` of repository.go): exactly the peers that were heard of
-- within the timeout are left.
use tun_go.Base.{
  ℕ, ◌≡◌, ◌≢◌, ◌↔◌, ◌∙◌, refl, sym, ap, subst, inl, inr, true, false, List, [], ◌∷◌, some, arith,
  Bool-cases, Option-cases, map,
}
use tun_go.Base.Table.{Table, find, find-delete}
use tun_go.Ip.{Addr, unmap, contains, same_addr}
use tun_go.Ip.Prefix.{addr_eq, same_addr_iff}
use tun_go.Server.Peer.{Protocol, Egress}
use tun_go.Server.Repository.{Repository, take_out, delete_locked, is_idle, reap_keys, reap_idle}
use tun_go.Server.Repository.Indexed.{IsIndexed}
use tun_go.Server.Repository.Deletion.{
  heap-take_out, take_out-internal, delete_locked_live, delete_locked-IsIndexed,
}

module _ {S W : Type 0} (proto : Protocol S) (egress : Egress W) (now timeout : ℕ) where
  -- What visiting the keys makes of the map of internal addresses.
  record Reaps (ks : List Addr) (r r' : Repository S W) : Type 0 where
    valid : IsIndexed proto r'
    left :
        (a : Addr) (p : ℕ)
        → find a r'.internal_ip_to_peer ≡ some p
        → (find a r.internal_ip_to_peer ≡ some p)
          × (r'.heap p ≡ r.heap p)
          × (contains ks a ≡ true → is_idle now timeout (r.heap p) ≡ false)
    kept :
        (a : Addr) (p : ℕ)
        → find a r.internal_ip_to_peer ≡ some p
        → is_idle now timeout (r.heap p) ≡ false
        → find a r'.internal_ip_to_peer ≡ some p

  -- The step over a key whose peer stays, or that is gone already.
  Reaps-skip :
      (k : Addr) (ks : List Addr) (r r' : Repository S W)
      → ((p : ℕ) → find k r.internal_ip_to_peer ≡ some p → is_idle now timeout (r.heap p) ≡ false)
      → Reaps ks r r'
      → Reaps (k ∷ ks) r r'
  unfolding contains
  Reaps-skip k ks r r' fine s = record {
    valid = s.valid;
    left = λ a p h.
        let (there, same, rest) = s.left a p h in
        (
          there,
          same,
          λ c. elim (Bool-cases (same_addr k a)) [
            | inl e ↦
                fine p (ap (λ t. find t r.internal_ip_to_peer) ((same_addr_iff k a).0 e) ∙ there)
            | inr e ↦ rest (ground (arith, e))
          ],
        );
    kept = s.kept;
  }

  -- The step over a key whose peer is idle.
  module _ (k : Addr) (r : Repository S W) (p : ℕ) (v : IsIndexed proto r) where
    module _ (here : find k r.internal_ip_to_peer ≡ some p)
        (idle : is_idle now timeout (r.heap p) ≡ true) where
      take_out_kept :
          (a : Addr) (q : ℕ)
          → find a r.internal_ip_to_peer ≡ some q
          → q ≢ p
          → find a (take_out proto egress r p).internal_ip_to_peer ≡ some q
      unfolding take_out
      take_out_kept a q h ne = elim (Bool-cases (same_addr (unmap (r.heap p).internal_ip) a)) [
        | inl e ↦
            (let own : k ≡ a = sym (v.internal k p here).1 ∙ (same_addr_iff _ a).0 e in
              let found : find a r.internal_ip_to_peer ≡ some p =
                ap (λ t. find t r.internal_ip_to_peer) (sym own) ∙ here in
              absurd (ground (arith, found)))
        | inr e ↦
            ground (arith, e, find-delete (unmap (r.heap p).internal_ip) a r.internal_ip_to_peer)
      ]

      Reaps-delete :
          (ks : List Addr) (r' : Repository S W)
          → Reaps ks (take_out proto egress r p) r'
          → Reaps (k ∷ ks) r r'
      unfolding contains
      Reaps-delete ks r' s = record {
        valid = s.valid;
        left = λ a q h.
            let (after, same, rest) = s.left a q h in
            let (there, ne) = take_out-internal proto egress r p v a q after in
            let unchanged : (take_out proto egress r p).heap q ≡ r.heap q =
              heap-take_out proto egress r p q ne in
            (
              there,
              same ∙ unchanged,
              λ c. elim (Bool-cases (same_addr k a)) [
                | inl e ↦
                    (let found : find a r.internal_ip_to_peer ≡ some p =
                        ap (λ t. find t r.internal_ip_to_peer) (sym ((same_addr_iff k a).0 e))
                        ∙ here in
                      absurd (ground (arith, found, there, ne)))
                | inr e ↦ ap (is_idle now timeout) (sym unchanged) ∙ rest (ground (arith, e))
              ],
            );
        kept = λ a q h fresh.
            let ne : q ≢ p =
              λ own. ground (arith, idle, ap (λ (t : ℕ). is_idle now timeout (r.heap t)) own) in
            s.kept a q (take_out_kept a q h ne)
              (ap (is_idle now timeout) (heap-take_out proto egress r p q ne) ∙ fresh);
      }

  module _ (r : Repository S W) (k : Addr) (ks : List Addr) (p : ℕ) where
    module _ (e : find k r.internal_ip_to_peer ≡ some p) where
      reap_keys_idle :
          is_idle now timeout (r.heap p) ≡ true
          → (reap_keys proto egress now timeout r (k ∷ ks)).0
            ≡ (reap_keys proto egress now timeout (delete_locked proto egress r p) ks).0
      unfolding reap_keys
      reap_keys_idle idle = ground (arith, e, idle)

      reap_keys_fresh :
          is_idle now timeout (r.heap p) ≡ false
          → (reap_keys proto egress now timeout r (k ∷ ks)).0
            ≡ (reap_keys proto egress now timeout r ks).0
      unfolding reap_keys
      reap_keys_fresh fresh = ground (arith, e, fresh)

  reap_keys-Reaps :
      (r : Repository S W) (ks : List Addr)
      → IsIndexed proto r
      → Reaps ks r (reap_keys proto egress now timeout r ks).0
  unfolding reap_keys contains
  reap_keys-Reaps r [] v = record {
    valid = v;
    left = λ a p h. (h, refl, λ c. absurd (cc));
    kept = λ a p h fresh. h;
  }
  reap_keys-Reaps r (k ∷ ks) v = elim (Option-cases (find k r.internal_ip_to_peer)) [
    | inl e ↦
        rw (e, reap_keys) (Reaps-skip k ks r _ (λ p h. absurd (cc (h, e))) (reap_keys-Reaps r ks v))
    | inr (p, e) ↦ elim (Bool-cases (is_idle now timeout (r.heap p))) [
      | inl idle ↦
          (let same : delete_locked proto egress r p ≡ take_out proto egress r p =
              delete_locked_live proto egress r p (v.internal k p e).0.live in
            let rest : Reaps ks (take_out proto egress r p)
                (reap_keys proto egress now timeout (delete_locked proto egress r p) ks).0 =
              subst
                (λ t.
                  Reaps ks t
                    (reap_keys proto egress now timeout (delete_locked proto egress r p) ks).0)
                same
                (reap_keys-Reaps (delete_locked proto egress r p) ks
                  (delete_locked-IsIndexed proto egress r p v)) in
            subst (Reaps (k ∷ ks) r) (sym (reap_keys_idle r k ks p e idle))
              (Reaps-delete k r p v e idle ks _ rest))
      | inr fresh ↦ subst (Reaps (k ∷ ks) r) (sym (reap_keys_fresh r k ks p e fresh)) (
          Reaps-skip k ks r _
            (λ q h. subst (λ (t : ℕ). is_idle now timeout (r.heap t) ≡ false) (cc (h, e)) fresh)
            (reap_keys-Reaps r ks v))
    ]
  ]

  contains-keys :
      (m : Table Addr ℕ) (a : Addr) (p : ℕ)
      → find a m ≡ some p
      → contains (map (λ e. e.0) m) a ≡ true
  unfolding find contains
  contains-keys [] a p h = absurd (cc)
  contains-keys ((k, q) ∷ m) a p h = ground (arith, contains-keys m a p)

  pub reap_idle-IsIndexed :
      (r : Repository S W)
      → IsIndexed proto r
      → IsIndexed proto (reap_idle proto egress now timeout r).0
  unfolding reap_idle
  reap_idle-IsIndexed r v = (reap_keys-Reaps r (map (λ e. e.0) r.internal_ip_to_peer) v).valid

  -- ReapIdle over a repository in its invariant leaves exactly those peers under their internal
  -- addresses that were there and are not idle.
  pub reap_idle_iff :
      (r : Repository S W) (a : Addr) (p : ℕ)
      → IsIndexed proto r
      → (find a (reap_idle proto egress now timeout r).0.internal_ip_to_peer ≡ some p)
        ↔ ((find a r.internal_ip_to_peer ≡ some p) × (is_idle now timeout (r.heap p) ≡ false))
  unfolding reap_idle
  reap_idle_iff r a p v =
      let reaped = reap_keys-Reaps r (map (λ e. e.0) r.internal_ip_to_peer) v in
      (
        λ h.
            (let (there, _, fresh) = reaped.left a p h in
              (there, fresh (contains-keys r.internal_ip_to_peer a p there))),
        λ h. reaped.kept a p h.0 h.1,
      )
