-- ===== src/Server/Repository/Indexed.antt =====
-- The invariant of the repository (repository.go): an entry of a map leads to a peer that is open,
-- belongs under its key and is tracked by its public key, under which it is listed once.
use tun_go.Base.{ℕ, ◌<◌, ◌≡◌, true, false, some, Bytes, length, arith}
use tun_go.Base.Table.{nat_eq, find, find_all}
use tun_go.Ip.{Addr, unmap, contains}
use tun_go.Ip.Prefix.{bytes_eq, addr_eq}
use tun_go.Server.Peer.{Protocol, Peer}
use tun_go.Server.Repository.{Repository, new_repository}
use tun_go.Server.Repository.Tracking.{count}

-- Open, under an address that is unmapped, and listed once under its key if it has one.
pub record IsListed {S W : Type 0} (r : Repository S W) (p : ℕ) : Type 0 where
  pub live : (r.heap p).closed ≡ false
  pub plain : unmap (r.heap p).internal_ip ≡ (r.heap p).internal_ip
  pub tracked :
      0 < length (r.heap p).client_pub_key
      → count p (find_all (r.heap p).client_pub_key r.pub_key_to_peers) ≡ 1

pub record IsIndexed {S W : Type 0} (proto : Protocol S) (r : Repository S W) : Type 0 where
  pub internal :
      (a : Addr) (p : ℕ)
      → find a r.internal_ip_to_peer ≡ some p
      → IsListed r p × (unmap (r.heap p).internal_ip ≡ a)
  pub routes :
      (id p : ℕ)
      → find id r.route_id_to_peer ≡ some p
      → IsListed r p × (proto.route_id (r.heap p).session ≡ some id)
  pub allowed :
      (a : Addr) (p : ℕ)
      → find a r.allowed_addr_to_peer ≡ some p
      → IsListed r p × (contains (r.heap p).allowed_addrs a ≡ true)
  pub keys :
      (k : Bytes) (p : ℕ)
      → 0 < count p (find_all k r.pub_key_to_peers)
      → ((r.heap p).closed ≡ false)
        × ((r.heap p).client_pub_key ≡ k)
        × (count p (find_all k r.pub_key_to_peers) ≡ 1)
        × (0 < length k)

pub new_repository-IsIndexed :
    {S W : Type 0} (proto : Protocol S) (heap : ℕ → Peer S W)
    → IsIndexed proto (new_repository heap)
unfolding new_repository find find_all
new_repository-IsIndexed proto heap = record {
  internal = λ a p h. absurd (cc);
  routes = λ id p h. absurd (cc);
  allowed = λ a p h. absurd (cc);
  keys = λ k p h. absurd (omega (arith, h));
}
