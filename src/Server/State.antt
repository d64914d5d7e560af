-- ===== src/Server/State.antt =====
-- src/internal/server/allowed_peers.go and state.go: the peers that may shake hands, and what the
-- server's tunnels share. A repository holds its own peers, and its number of sessions is counted.
use tun_go.Base.{
  ℕ, ◌+◌, ◌<◌, ◌≡◌, ◌≢◌, ◌∙◌, refl, List, [], ◌∷◌, Bool, Option, none, some, Bytes, length, arith,
  All, if◌then◌else◌,
}
use tun_go.Base.Table.{Table, find, put, find-put}
use tun_go.Ip.{same}
use tun_go.Ip.Prefix.{bytes_eq, same_iff}
use tun_go.Server.Peer.{Protocol, Egress}
use tun_go.Server.Repository.{Repository, terminate_by_pub_key}
use tun_go.Server.Repository.Indexed.{IsIndexed}
use tun_go.Server.Repository.Revocation.{IsRevoked, terminate-IsRevoked, terminate-IsIndexed}

-- `serverconfig.AllowedPeer`, without its name and its address.
pub record AllowedPeer : Type 0 where
  pub public_key : Bytes
  pub enabled : Bool
  pub client_id : ℕ

-- `map[string]allowedPeer`
abbrev pub AllowedPeers : Type 0
AllowedPeers = Table Bytes (ℕ × Bool)

-- The loop of `Update` over an empty map: a later peer replaces an earlier one of its key.
unfoldable pub put_peers : List AllowedPeer → AllowedPeers → AllowedPeers
put_peers [] m = m
put_peers (p ∷ ps) m = put_peers ps (put p.public_key (p.client_id, p.enabled) m)

unfoldable pub update_peers : List AllowedPeer → AllowedPeers
unfolding put_peers
update_peers ps = put_peers ps []

-- The client id and whether the peer is enabled, or nothing for a peer that is not found.
unfoldable pub lookup_peer : AllowedPeers → Bytes → Option (ℕ × Bool)
lookup_peer m key = find key m

-- The last entry of the list with the key.
abbrev pub latest_entry : Bytes → Option (ℕ × Bool) → List AllowedPeer → Option (ℕ × Bool)
latest_entry key found [] = found
latest_entry key found (p ∷ ps) =
    latest_entry key (if same p.public_key key then some (p.client_id, p.enabled) else found) ps

find-put_peers :
    (ps : List AllowedPeer) (m : AllowedPeers) (key : Bytes)
    → find key (put_peers ps m) ≡ latest_entry key (find key m) ps
unfolding put_peers
find-put_peers [] m key = refl
find-put_peers (p ∷ ps) m key =
    rw (← find-put p.public_key key (p.client_id, p.enabled) m)
      (find-put_peers ps (put p.public_key (p.client_id, p.enabled) m) key)

pub lookup_peer-update_peers :
    (ps : List AllowedPeer) (key : Bytes)
    → lookup_peer (update_peers ps) key ≡ latest_entry key none ps
unfolding lookup_peer update_peers find
lookup_peer-update_peers ps key = find-put_peers ps [] key

latest_entry_absent :
    (key : Bytes) (found : Option (ℕ × Bool)) (ps : List AllowedPeer)
    → All (λ p. p.public_key ≢ key) ps
    → latest_entry key found ps ≡ found
latest_entry_absent key found [] gone = refl
latest_entry_absent key found (p ∷ ps) gone =
    ground (arith, latest_entry_absent key found ps gone.1, same_iff p.public_key key, gone.0)

pub record Server (S W : Type 0) : Type 0 where
  pub allowed_peers : Option AllowedPeers
  pub repositories : List (Repository S W)

module _ {S W : Type 0} where
  -- `Server.Update`
  unfoldable pub update_server : Server S W → List AllowedPeer → Server S W
  update_server s ps = elim s.allowed_peers [
    | none ↦ s
    | some m ↦ record s { allowed_peers = some (update_peers ps) }
  ]

  repositories-update_server :
      (s : Server S W) (ps : List AllowedPeer) → (update_server s ps).repositories ≡ s.repositories
  unfolding update_server
  repositories-update_server s ps = ground arith

module _ {S W : Type 0} (proto : Protocol S) (egress : Egress W) where
  -- The loop of `RevokeByPubKey`.
  unfoldable pub terminate_each : List (Repository S W) → Bytes → List (Repository S W) × ℕ
  terminate_each [] key = ([], 0)
  terminate_each (r ∷ rs) key =
      let one = terminate_by_pub_key proto egress r key in
      let rest = terminate_each rs key in (one.0 ∷ rest.0, one.1 + rest.1)

  unfoldable pub revoke_by_pub_key : Server S W → Bytes → Server S W × ℕ
  revoke_by_pub_key s key =
      let r = terminate_each s.repositories key in (record s { repositories = r.0 }, r.1)

  terminate_each-Revoked :
      (rs : List (Repository S W)) (key : Bytes)
      → 0 < length key
      → All (IsIndexed proto) rs
      → All (λ r. IsIndexed proto r × IsRevoked r key) (terminate_each rs key).0
  unfolding terminate_each
  terminate_each-Revoked [] key long v = tt
  terminate_each-Revoked (r ∷ rs) key long v = (
    (
      terminate-IsIndexed proto egress r key v.0 long,
      terminate-IsRevoked proto egress r key v.0 long,
    ),
    terminate_each-Revoked rs key long v.1,
  )

  -- Replacing the allowed peers by a list without a key and then revoking that key: if every
  -- repository is in its invariant, no handshake finds the key any more and no lookup of any
  -- repository leads to a peer of it, whatever the other entries are.
  pub revocation_complete :
      (s : Server S W) (ps : List AllowedPeer) (key : Bytes) (m : AllowedPeers)
      → s.allowed_peers ≡ some m
      → 0 < length key
      → All (λ p. p.public_key ≢ key) ps
      → All (IsIndexed proto) s.repositories
      → ((update_server s ps).allowed_peers ≡ some (update_peers ps))
        × (lookup_peer (update_peers ps) key ≡ none)
        × All
            (λ r. IsIndexed proto r × IsRevoked r key)
            (revoke_by_pub_key (update_server s ps) key).0.repositories
  unfolding revoke_by_pub_key
  revocation_complete s ps key m e long gone v = (
    unfold update_server in rw (e, update_server) refl,
    lookup_peer-update_peers ps key ∙ latest_entry_absent key none ps gone,
    rw (repositories-update_server s ps) (terminate_each-Revoked s.repositories key long v),
  )
