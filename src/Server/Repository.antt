-- ===== src/Server/Repository.antt =====
-- src/internal/server/session/repository.go: the peers of a server and the four maps that find them.
-- A `*Peer` is a number, the store `heap` holds what it points to, and the read-write mutex makes
-- each method one step. A `range` over a map visits its keys in the order of the list, which no
-- theorem fixes, and reads the value when it comes to the key, as Go does for a map that loses
-- entries on the way.
pub mod Tracking
pub mod Owned
pub mod Indexed
pub mod Deletion
pub mod Addition
pub mod Lookups
pub mod Termination
pub mod Revocation
pub mod Reaping
pub mod Updates
use tun_go.Base.{
  ℕ, ◌+◌, ◌-◌, ◌*◌, List, [], ◌∷◌, ◌++◌, Bool, true, false, Option, none, some, ltb, ◌==◌,
  if◌then◌else◌, Bytes, length, take, set, get_or, map, Result, ok, err, not_found,
}
use tun_go.Base.Table.{Eq, nat_eq, Table, find, find_all, delete, put}
use tun_go.Ip.{Addr, unmap}
use tun_go.Ip.Prefix.{AddrPort, bytes_eq, addr_eq}
use tun_go.Server.Peer.{
  Protocol, Egress, Peer, is_source_allowed, set_external_addr_port, mark_closed,
  update_egress_addr,
}

pub record Repository (S W : Type 0) : Type 0 where
  pub heap : ℕ → Peer S W
  pub internal_ip_to_peer : Table Addr ℕ
  pub route_id_to_peer : Table ℕ ℕ
  pub allowed_addr_to_peer : Table Addr ℕ
  pub pub_key_to_peers : Table Bytes (List ℕ)

abbrev pub update {ℓ} : {A : Type ℓ} → ℕ → A → (ℕ → A) → ℕ → A
update p v h q = if p == q then v else h q

-- `m[k] == p`
abbrev pub points_to : ℕ → Option ℕ → Bool
points_to p none = false
points_to p (some q) = q == p

-- `for addr := range addrs { m[addr] = p }`
unfoldable pub put_all : ℕ → List Addr → Table Addr ℕ → Table Addr ℕ
put_all p [] m = m
put_all p (a ∷ addrs) m = put_all p addrs (put a p m)

-- The deletion that looks whether the entry is the peer's own.
module _ {K : Type 0} ⦃e : Eq K⦄ where
  unfoldable pub delete_own : ℕ → K → Table K ℕ → Table K ℕ
  delete_own p k m = if points_to p (find k m) then delete k m else m

unfoldable pub delete_all_own : ℕ → List Addr → Table Addr ℕ → Table Addr ℕ
unfolding delete_own
delete_all_own p [] m = m
delete_all_own p (a ∷ addrs) m = delete_all_own p addrs (delete_own p a m)

-- The loop `for i, p := range peers` up to its `break`.
unfoldable pub index_of : ℕ → List ℕ → Option ℕ
index_of p [] = none
index_of p (x ∷ xs) =
    if x == p then some 0 else elim (index_of p xs) [ none ↦ none | some i ↦ some (i + 1) ]

-- `peers[i] = peers[len(peers)-1]`, then `peers[:len(peers)-1]`
unfoldable pub swap_out : ℕ → List ℕ → List ℕ
swap_out i peers = take (length peers - 1) (set peers i (get_or peers (length peers - 1) 0))

unfoldable pub track : ℕ → Bytes → Table Bytes (List ℕ) → Table Bytes (List ℕ)
track p key m = if ltb 0 (length key) then put key (find_all key m ++ (p ∷ [])) m else m

unfoldable pub drop_empty : Bytes → Table Bytes (List ℕ) → Table Bytes (List ℕ)
drop_empty key m = if length (find_all key m) == 0 then delete key m else m

unfoldable pub remove_tracked : ℕ → Bytes → Table Bytes (List ℕ) → Table Bytes (List ℕ)
remove_tracked p key m = elim (index_of p (find_all key m)) [
  | none ↦ m
  | some i ↦ put key (swap_out i (find_all key m)) m
]

unfoldable pub untrack : ℕ → Bytes → Table Bytes (List ℕ) → Table Bytes (List ℕ)
untrack p key m = if ltb 0 (length key) then drop_empty key (remove_tracked p key m) else m

module _ {S W : Type 0} where
  unfoldable pub new_repository : (ℕ → Peer S W) → Repository S W
  new_repository heap = record {
    heap = heap;
    internal_ip_to_peer = [];
    route_id_to_peer = [];
    allowed_addr_to_peer = [];
    pub_key_to_peers = [];
  }

  unfoldable pub get_by_internal_addr_port : Repository S W → Addr → Result ℕ
  get_by_internal_addr_port r a = elim (find (unmap a) r.internal_ip_to_peer) [
    | none ↦ err not_found
    | some p ↦ ok p
  ]

  unfoldable pub get_by_route_id : Repository S W → ℕ → Result ℕ
  get_by_route_id r id = elim (find id r.route_id_to_peer) [ none ↦ err not_found | some p ↦ ok p ]

  -- The slow path over the keys that are left.
  unfoldable pub scan : Repository S W → Addr → List Addr → Result ℕ
  scan r a [] = err not_found
  scan r a (k ∷ ks) =
      let rest : Result ℕ = scan r a ks in
      elim (find k r.internal_ip_to_peer) [
        | none ↦ rest
        | some p ↦ (if is_source_allowed (r.heap p) a then ok p else rest)
      ]

  unfoldable pub find_by_destination_ip : Repository S W → Addr → Result ℕ
  find_by_destination_ip r a = elim (find (unmap a) r.internal_ip_to_peer) [
    | some p ↦ ok p
    | none ↦ elim (find (unmap a) r.allowed_addr_to_peer) [
      | some p ↦ ok p
      | none ↦ scan r (unmap a) (map (λ e. e.0) r.internal_ip_to_peer)
    ]
  ]

  -- `LastActivity().Before(cutoff)`, on the clock's nanoseconds.
  unfoldable pub is_idle : ℕ → ℕ → Peer S W → Bool
  is_idle now timeout x = ltb (x.last_activity * 1000000000 + timeout) now

  -- A write to what a pointer of the store points to.
  unfoldable pub modify : Repository S W → ℕ → Peer S W → Repository S W
  modify r p x = record r { heap = update p x r.heap }

  unfoldable pub update_external_addr : Egress W → Repository S W → ℕ → AddrPort → Repository S W
  update_external_addr egress r p a =
      if (r.heap p).closed
      then r
      else modify r p (update_egress_addr egress (set_external_addr_port (r.heap p) a) a)

module _ {S W : Type 0} (proto : Protocol S) where
  unfoldable pub add : Repository S W → ℕ → Repository S W
  add r p = record r {
    internal_ip_to_peer = put (unmap (r.heap p).internal_ip) p r.internal_ip_to_peer;
    route_id_to_peer = elim (proto.route_id (r.heap p).session) [
      | none ↦ r.route_id_to_peer
      | some id ↦ put id p r.route_id_to_peer
    ];
    allowed_addr_to_peer = put_all p (r.heap p).allowed_addrs r.allowed_addr_to_peer;
    pub_key_to_peers = track p (r.heap p).client_pub_key r.pub_key_to_peers;
  }

module _ {S W : Type 0} (proto : Protocol S) (egress : Egress W) where
  -- A peer that is marked closed, its egress closed and its key material zeroed.
  unfoldable pub shut : Peer S W → Peer S W
  unfolding mark_closed
  shut x = record (mark_closed x) {
    writer = egress.close x.writer;
    session = proto.zeroize x.session;
  }

  -- What `deleteLocked` does to a peer that is not closed yet.
  unfoldable pub take_out : Repository S W → ℕ → Repository S W
  take_out r p = record {
    heap = update p (shut (r.heap p)) r.heap;
    internal_ip_to_peer = delete (unmap (r.heap p).internal_ip) r.internal_ip_to_peer;
    route_id_to_peer = elim (proto.route_id (r.heap p).session) [
      | none ↦ r.route_id_to_peer
      | some id ↦ delete_own p id r.route_id_to_peer
    ];
    allowed_addr_to_peer = delete_all_own p (r.heap p).allowed_addrs r.allowed_addr_to_peer;
    pub_key_to_peers = untrack p (r.heap p).client_pub_key r.pub_key_to_peers;
  }

  unfoldable pub delete_locked : Repository S W → ℕ → Repository S W
  unfolding take_out
  delete_locked r p = if (r.heap p).closed then r else take_out r p

  -- The loop over the copied slice.
  unfoldable pub delete_each : Repository S W → List ℕ → Repository S W
  delete_each r [] = r
  delete_each r (p ∷ ps) = delete_each (delete_locked r p) ps

  unfoldable pub terminate_by_pub_key : Repository S W → Bytes → Repository S W × ℕ
  terminate_by_pub_key r key =
      if length key == 0
      then (r, 0)
      else if length (find_all key r.pub_key_to_peers) == 0
      then (r, 0)
      else (
        delete_each r (find_all key r.pub_key_to_peers),
        length (find_all key r.pub_key_to_peers),
      )

  unfoldable pub reap_keys : ℕ → ℕ → Repository S W → List Addr → Repository S W × ℕ
  reap_keys now timeout r [] = (r, 0)
  reap_keys now timeout r (k ∷ ks) = elim (find k r.internal_ip_to_peer) [
    | none ↦ reap_keys now timeout r ks
    | some p ↦ elim (is_idle now timeout (r.heap p)) [
      | true ↦ (let rest = reap_keys now timeout (delete_locked r p) ks in (rest.0, rest.1 + 1))
      | false ↦ reap_keys now timeout r ks
    ]
  ]

  unfoldable pub reap_idle : ℕ → ℕ → Repository S W → Repository S W × ℕ
  reap_idle now timeout r = reap_keys now timeout r (map (λ e. e.0) r.internal_ip_to_peer)
