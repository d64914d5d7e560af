-- ===== src/Server/Peer/Sources.antt =====
-- The addresses that a peer may send from (`IsSourceAllowed` of
-- src/internal/server/session/peer.go).
use tun_go.Base.{◌≡◌, refl, true, arith}
use tun_go.Ip.{Addr, unmap, contains}
use tun_go.Ip.Prefix.{same_addr_iff, unmap-unmap}
use tun_go.Server.Peer.{Peer, is_source_allowed}

module _ {S W : Type 0} (p : Peer S W) (a : Addr) where
  pub is_source_allowed_internal : unmap a ≡ p.internal_ip → is_source_allowed p a ≡ true
  unfolding is_source_allowed
  is_source_allowed_internal e = ground (arith, same_addr_iff (unmap a) p.internal_ip)

  pub is_source_allowed_address :
      contains p.allowed_addrs (unmap a) ≡ true → is_source_allowed p a ≡ true
  unfolding is_source_allowed
  is_source_allowed_address e = ground (arith, e)

  pub is_source_allowed-unmap : is_source_allowed p a ≡ is_source_allowed p (unmap a)
  unfolding is_source_allowed
  is_source_allowed-unmap = rw (unmap-unmap a) refl
