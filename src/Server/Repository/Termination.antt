-- ===== src/Server/Repository/Termination.antt =====
-- Deletion, revocation by a public key and what they leave behind (repository.go).
use tun_go.Base.{
  ℕ, ◌<◌, ◌≤◌, ◌≡◌, refl, ap, subst, inl, inr, true, false, List, [], ◌∷◌, Bytes, length, arith,
  ==_iff, Bool-cases, ℕ_discrete, dec_lt,
}
use tun_go.Base.Table.{find_all}
use tun_go.Ip.Prefix.{bytes_eq}
use tun_go.Server.Peer.{Protocol, Egress}
use tun_go.Server.Repository.{
  Repository, shut, take_out, delete_locked, delete_each, terminate_by_pub_key,
}
use tun_go.Server.Repository.Tracking.{count}
use tun_go.Server.Repository.Indexed.{IsIndexed}
use tun_go.Server.Repository.Deletion.{
  count-take_out, count-take_out_le, delete_locked_live, delete_locked_closed,
  delete_locked-IsIndexed,
}

module _ {S W : Type 0} (proto : Protocol S) (egress : Egress W) where
  pub closed-delete :
      (r : Repository S W) (p : ℕ) → ((delete_locked proto egress r p).heap p).closed ≡ true
  unfolding delete_locked take_out shut
  closed-delete r p = ground (arith, ==_iff p p)

  closed-delete_kept :
      (r : Repository S W) (p q : ℕ)
      → (r.heap q).closed ≡ true
      → ((delete_locked proto egress r p).heap q).closed ≡ true
  unfolding delete_locked take_out shut
  closed-delete_kept r p q h = ground (arith, ==_iff p q)

  pub count-delete_le :
      (r : Repository S W) (p q : ℕ) (k : Bytes)
      → IsIndexed proto r
      → count q (find_all k (delete_locked proto egress r p).pub_key_to_peers)
        ≤ count q (find_all k r.pub_key_to_peers)
  count-delete_le r p q k v = elim (Bool-cases (r.heap p).closed) [
    | inl e ↦ rw (delete_locked_closed proto egress r p e) (omega arith)
    | inr e ↦ rw (delete_locked_live proto egress r p e) (count-take_out_le proto egress r p v k q)
  ]

  count-delete_self :
      (r : Repository S W) (p : ℕ) (k : Bytes)
      → IsIndexed proto r
      → count p (find_all k (delete_locked proto egress r p).pub_key_to_peers) ≡ 0
  count-delete_self r p k v = elim (Bool-cases (r.heap p).closed) [
    | inl e ↦ rw (delete_locked_closed proto egress r p e) (closed_unlisted e)
    | inr e ↦ rw (delete_locked_live proto egress r p e) (count-take_out proto egress r p v k)
  ]
    where
      closed_unlisted : (r.heap p).closed ≡ true → count p (find_all k r.pub_key_to_peers) ≡ 0
      closed_unlisted e = elim (dec_lt 0 (count p (find_all k r.pub_key_to_peers))) [
        | yes l ↦ (let live : (r.heap p).closed ≡ false = (v.keys k p l).0 in absurd (cc))
        | no n ↦ omega (arith, n)
      ]

  pub delete_each-IsIndexed :
      (r : Repository S W) (ps : List ℕ)
      → IsIndexed proto r
      → IsIndexed proto (delete_each proto egress r ps)
  unfolding delete_each
  delete_each-IsIndexed r [] v = v
  delete_each-IsIndexed r (p ∷ ps) v =
      delete_each-IsIndexed (delete_locked proto egress r p) ps
        (delete_locked-IsIndexed proto egress r p v)

  closed-delete_each_kept :
      (r : Repository S W) (ps : List ℕ) (q : ℕ)
      → (r.heap q).closed ≡ true
      → ((delete_each proto egress r ps).heap q).closed ≡ true
  unfolding delete_each
  closed-delete_each_kept r [] q h = h
  closed-delete_each_kept r (p ∷ ps) q h =
      closed-delete_each_kept (delete_locked proto egress r p) ps q (closed-delete_kept r p q h)

  pub closed-delete_each :
      (r : Repository S W) (ps : List ℕ) (q : ℕ)
      → 0 < count q ps
      → ((delete_each proto egress r ps).heap q).closed ≡ true
  unfolding delete_each
  closed-delete_each r [] q h = absurd (omega arith)
  closed-delete_each r (p ∷ ps) q h = elim (ℕ_discrete p q) [
    | yes e ↦ closed-delete_each_kept (delete_locked proto egress r p) ps q (
        subst (λ (t : ℕ). ((delete_locked proto egress r p).heap t).closed ≡ true) e
          (closed-delete r p))
    | no n ↦ closed-delete_each (delete_locked proto egress r p) ps q (ground (arith, n))
  ]

  count-delete_each_le :
      (r : Repository S W) (ps : List ℕ) (q : ℕ) (k : Bytes)
      → IsIndexed proto r
      → count q (find_all k (delete_each proto egress r ps).pub_key_to_peers)
        ≤ count q (find_all k r.pub_key_to_peers)
  unfolding delete_each
  count-delete_each_le r [] q k v = omega arith
  count-delete_each_le r (p ∷ ps) q k v = omega (
    arith,
    count-delete_each_le (delete_locked proto egress r p) ps q k
        (delete_locked-IsIndexed proto egress r p v),
    count-delete_le r p q k v,
  )

  count-delete_each :
      (r : Repository S W) (ps : List ℕ) (q : ℕ) (k : Bytes)
      → IsIndexed proto r
      → 0 < count q ps
      → count q (find_all k (delete_each proto egress r ps).pub_key_to_peers) ≡ 0
  unfolding delete_each
  count-delete_each r [] q k v h = absurd (omega arith)
  count-delete_each r (p ∷ ps) q k v h = elim (ℕ_discrete p q) [
    | yes e ↦ omega (
      arith,
      count-delete_each_le (delete_locked proto egress r p) ps q k
          (delete_locked-IsIndexed proto egress r p v),
      count-delete_self r p k v,
      ap (λ (t : ℕ). count t (find_all k (delete_locked proto egress r p).pub_key_to_peers)) e,
    )
    | no n ↦
        count-delete_each (delete_locked proto egress r p) ps q k
          (delete_locked-IsIndexed proto egress r p v) (ground (arith, n))
  ]

  pub terminate_lem :
      (r : Repository S W) (key : Bytes)
      → 0 < length key
      → terminate_by_pub_key proto egress r key ≡ (
        delete_each proto egress r (find_all key r.pub_key_to_peers),
        length (find_all key r.pub_key_to_peers),
      )
  unfolding terminate_by_pub_key delete_each
  terminate_lem r key long = go (find_all key r.pub_key_to_peers) refl
    where
      go :
          (ps : List ℕ)
          → find_all key r.pub_key_to_peers ≡ ps
          → terminate_by_pub_key proto egress r key ≡ (delete_each proto egress r ps, length ps)
      go [] e = ground (arith, e, long)
      go (x ∷ ps) e = ground (arith, e, long)

  -- The whole slice of the key is gone.
  pub terminate_unlisted :
      (r : Repository S W) (key : Bytes) (q : ℕ)
      → IsIndexed proto r
      → count q (
          find_all key
            (delete_each proto egress r (find_all key r.pub_key_to_peers)).pub_key_to_peers)
        ≡ 0
  terminate_unlisted r key q v = elim (dec_lt 0 (count q (find_all key r.pub_key_to_peers))) [
    | yes l ↦ count-delete_each r (find_all key r.pub_key_to_peers) q key v l
    | no n ↦ omega (arith, n, count-delete_each_le r (find_all key r.pub_key_to_peers) q key v)
  ]
