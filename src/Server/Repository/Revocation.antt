-- ===== src/Server/Repository/Revocation.antt =====
-- What a deletion and a revocation promise the callers of the repository (repository.go).
use tun_go.Base.{
  ℕ, ◌<◌, ◌≡◌, ◌≢◌, sym, ap, subst, true, false, List, ok, err, Bytes, length, arith, peer_closed,
}
use tun_go.Base.Table.{find_all}
use tun_go.Ip.{Addr}
use tun_go.Ip.Prefix.{bytes_eq}
use tun_go.Server.Peer.{Protocol, Egress, send, decrypt}
use tun_go.Server.Repository.{
  Repository, get_by_internal_addr_port, get_by_route_id, find_by_destination_ip, delete_locked,
  delete_each, terminate_by_pub_key,
}
use tun_go.Server.Repository.Tracking.{count}
use tun_go.Server.Repository.Indexed.{IsListed, IsIndexed}
use tun_go.Server.Repository.Deletion.{delete_locked-IsIndexed}
use tun_go.Server.Repository.Lookups.{
  find_by_destination_ip-Allowed, get_by_internal-Allowed, get_by_route_id-Routed,
}
use tun_go.Server.Repository.Termination.{
  closed-delete, closed-delete_each, delete_each-IsIndexed, terminate_lem, terminate_unlisted,
}

-- No lookup leads to the peer, and what holds on to it can neither send nor decrypt.
pub record IsGone {S W : Type 0} (proto : Protocol S) (egress : Egress W) (r : Repository S W)
    (p : ℕ) : Type 0 where
  pub by_internal : (a : Addr) → get_by_internal_addr_port r a ≢ ok p
  pub by_route : (id : ℕ) → get_by_route_id r id ≢ ok p
  pub by_destination : (a : Addr) → find_by_destination_ip r a ≢ ok p
  pub refuses_send : (b : Bytes) → send proto egress (r.heap p) b ≡ (r.heap p, err peer_closed)
  pub refuses_decrypt : (b : Bytes) → decrypt proto (r.heap p) b ≡ (r.heap p, err peer_closed)

module _ {S W : Type 0} (proto : Protocol S) (egress : Egress W) (r : Repository S W) where
  closed-IsGone : (p : ℕ) → IsIndexed proto r → (r.heap p).closed ≡ true → IsGone proto egress r p
  unfolding send decrypt
  closed-IsGone p v e = record {
    by_internal = λ a h. clash (get_by_internal-Allowed proto r v a p h).0;
    by_route = λ id h. clash (get_by_route_id-Routed proto r v id p h).0;
    by_destination = λ a h. clash (find_by_destination_ip-Allowed proto r v a p h).0;
    refuses_send = λ b. ground (arith, e);
    refuses_decrypt = λ b. ground (arith, e);
  }
    where
      clash : IsListed r p → ⊥
      clash l = let live : (r.heap p).closed ≡ false = l.live in cc

module _ {S W : Type 0} (proto : Protocol S) (egress : Egress W) (r : Repository S W) where
  -- Deleting a peer of a repository in its invariant leaves no lookup, by internal address, route
  -- id or destination, that leads to it, and whoever still holds it gets the error of a closed peer
  -- from Send and Decrypt, with no effect.
  pub delete-IsGone :
      (p : ℕ) → IsIndexed proto r → IsGone proto egress (delete_locked proto egress r p) p
  delete-IsGone p v =
      closed-IsGone proto egress (delete_locked proto egress r p) p
        (delete_locked-IsIndexed proto egress r p v) (closed-delete proto egress r p)

-- No lookup leads to a peer of the key.
pub record IsRevoked {S W : Type 0} (r : Repository S W) (key : Bytes) : Type 0 where
  pub not_internal :
      (a : Addr) (p : ℕ) → get_by_internal_addr_port r a ≡ ok p → (r.heap p).client_pub_key ≢ key
  pub not_route : (id p : ℕ) → get_by_route_id r id ≡ ok p → (r.heap p).client_pub_key ≢ key
  pub not_destination :
      (a : Addr) (p : ℕ) → find_by_destination_ip r a ≡ ok p → (r.heap p).client_pub_key ≢ key

module _ {S W : Type 0} (proto : Protocol S) (r : Repository S W) (key : Bytes) where
  unlisted-IsRevoked :
      IsIndexed proto r
      → 0 < length key
      → ((q : ℕ) → count q (find_all key r.pub_key_to_peers) ≡ 0)
      → IsRevoked r key
  unlisted-IsRevoked v long none_left = record {
    not_internal = λ a p h. clash p (get_by_internal-Allowed proto r v a p h).0;
    not_route = λ id p h. clash p (get_by_route_id-Routed proto r v id p h).0;
    not_destination = λ a p h. clash p (find_by_destination_ip-Allowed proto r v a p h).0;
  }
    where
      clash : (p : ℕ) → IsListed r p → (r.heap p).client_pub_key ≢ key
      clash p l own = omega (
        arith,
        none_left p,
        l.tracked (omega (arith, long, ap length own)),
        ap (λ k. count p (find_all k r.pub_key_to_peers)) own,
      )

module _ {S W : Type 0} (proto : Protocol S) (egress : Egress W) (r : Repository S W)
    (key : Bytes) where
  module _ (v : IsIndexed proto r) (long : 0 < length key) where
    abbrev tracked : List ℕ
    tracked = find_all key r.pub_key_to_peers

    terminated : (terminate_by_pub_key proto egress r key).0 ≡ delete_each proto egress r tracked
    terminated = ap (λ t. t.0) (terminate_lem proto egress r key long)

    -- Each peer that was tracked under the key is gone.
    pub terminate-IsGone :
        (p : ℕ)
        → 0 < count p (find_all key r.pub_key_to_peers)
        → IsGone proto egress (terminate_by_pub_key proto egress r key).0 p
    terminate-IsGone p h =
        subst (λ t. IsGone proto egress t p) (sym terminated)
          (closed-IsGone proto egress (delete_each proto egress r tracked) p
            (delete_each-IsIndexed proto egress r tracked v)
            (closed-delete_each proto egress r tracked p h))

    pub terminate-IsRevoked : IsRevoked (terminate_by_pub_key proto egress r key).0 key
    terminate-IsRevoked =
        subst (λ t. IsRevoked t key) (sym terminated)
          (unlisted-IsRevoked proto (delete_each proto egress r tracked) key
            (delete_each-IsIndexed proto egress r tracked v) long
            (λ q. terminate_unlisted proto egress r key q v))

    pub terminate-IsIndexed : IsIndexed proto (terminate_by_pub_key proto egress r key).0
    terminate-IsIndexed =
        subst (IsIndexed proto) (sym terminated) (delete_each-IsIndexed proto egress r tracked v)
