-- ===== src/Server/Peer.antt =====
-- src/internal/server/session/peer.go and sender.go: one client session beside its egress path.
-- A session's crypto, its epoch controller and its rekey coordinator share state, so they are one
-- value with the operations of `Protocol`; the writer under the sender is a value with those of
-- `Egress`. Time is a number of seconds. The two mutexes make each method one step.
pub mod Sources
use tun_go.Base.{
  ℕ, List, [], ◌∷◌, Bool, true, false, Option, none, some, if◌then◌else◌, Bytes, Result, ok, err,
  peer_closed,
}
use tun_go.Ip.{Addr, same_addr, unmap, contains}
use tun_go.Ip.Prefix.{AddrPort, Prefix, prefix_from, is_single_ip, prefix_contains}

-- `zeroize` changes nothing where the crypto has no `Zeroize`, and `route_id` is `none` where it has
-- no `RouteID`. A `handle` with no error and no response reports that nothing was rekeyed.
pub record Protocol (S : Type 0) : Type 0 where
  pub encrypt : S → Bytes → S × Result Bytes
  pub decrypt : S → Bytes → S × Result Bytes
  pub zeroize : S → S
  pub route_id : S → Option ℕ
  pub has_rekey : S → Bool
  pub handle : S → ℕ → Bytes → S × Result (Option (Bytes × ℕ))
  pub observe_peer_epoch : S → ℕ → S
  pub activate_send_epoch : S → ℕ → S

-- `close` and `set_addr_port` change nothing where the writer has no such method.
pub record Egress (W : Type 0) : Type 0 where
  pub write : W → Bytes → W × Result ℕ
  pub close : W → W
  pub set_addr_port : W → AddrPort → W

pub record Peer (S W : Type 0) : Type 0 where
  pub session : S
  pub writer : W
  pub internal_ip : Addr
  pub external_ip : AddrPort
  pub client_pub_key : Bytes
  pub allowed_addrs : List Addr
  pub allowed_nets : List Prefix
  pub closed : Bool
  pub last_activity : ℕ
  pub roamed_addr : Option AddrPort

-- The loop over `allowedIPs`: the single addresses, and the prefixes that are wider.
unfoldable pub sort_prefixes : List Prefix → List Addr × List Prefix
sort_prefixes [] = ([], [])
sort_prefixes (p ∷ ps) =
    let q : Prefix = prefix_from (unmap p.addr) p.bits in
    let rest : List Addr × List Prefix = sort_prefixes ps in
    if is_single_ip q then (q.addr ∷ rest.0, rest.1) else (rest.0, q ∷ rest.1)

-- The loop over `allowedNets`.
unfoldable pub any_contains : List Prefix → Addr → Bool
any_contains [] a = false
any_contains (p ∷ ps) a = if prefix_contains p a then true else any_contains ps a

module _ {S W : Type 0} where
  unfoldable pub new_peer_with_auth : S → W → Addr → AddrPort → Bytes → List Prefix → ℕ → Peer S W
  new_peer_with_auth s w internal external key allowed now = record {
    session = s;
    writer = w;
    internal_ip = unmap internal;
    external_ip = external;
    client_pub_key = key;
    allowed_addrs = (sort_prefixes allowed).0;
    allowed_nets = (sort_prefixes allowed).1;
    closed = false;
    last_activity = now;
    roamed_addr = none;
  }

  unfoldable pub is_source_allowed : Peer S W → Addr → Bool
  is_source_allowed p src =
      if same_addr (unmap src) p.internal_ip
      then true
      else if contains p.allowed_addrs (unmap src)
      then true
      else any_contains p.allowed_nets (unmap src)

  unfoldable pub external_addr_port : Peer S W → AddrPort
  external_addr_port p = elim p.roamed_addr [ none ↦ p.external_ip | some a ↦ a ]

  unfoldable pub set_external_addr_port : Peer S W → AddrPort → Peer S W
  set_external_addr_port p a = record p { roamed_addr = some a }

  unfoldable pub touch_activity : Peer S W → ℕ → Peer S W
  touch_activity p now = record p { last_activity = now }

  -- `updateEgressAddr`
  unfoldable pub update_egress_addr : Egress W → Peer S W → AddrPort → Peer S W
  update_egress_addr egress p a = record p { writer = egress.set_addr_port p.writer a }

  unfoldable pub mark_closed : Peer S W → Peer S W
  mark_closed p = record p { closed = true }

module _ {S W : Type 0} (proto : Protocol S) where
  unfoldable pub handle_rekey : Peer S W → ℕ → Bytes → Peer S W × Result (Option (Bytes × ℕ))
  handle_rekey p carrier plaintext =
      if proto.has_rekey p.session
      then (let r = proto.handle p.session carrier plaintext in (record p { session = r.0 }, r.1))
      else (p, ok none)

  unfoldable pub observe_peer_epoch : Peer S W → ℕ → Peer S W
  observe_peer_epoch p epoch =
      if proto.has_rekey p.session
      then record p { session = proto.observe_peer_epoch p.session epoch }
      else p

  unfoldable pub activate_send_epoch : Peer S W → ℕ → Peer S W
  activate_send_epoch p epoch =
      if proto.has_rekey p.session
      then record p { session = proto.activate_send_epoch p.session epoch }
      else p

  unfoldable pub decrypt : Peer S W → Bytes → Peer S W × Result Bytes
  decrypt p frame =
      if p.closed
      then (p, err peer_closed)
      else (let r = proto.decrypt p.session frame in (record p { session = r.0 }, r.1))

module _ {S W : Type 0} (proto : Protocol S) (egress : Egress W) where
  -- `encryptedSender.Send`
  unfoldable pub encrypted_send : Peer S W → Bytes → Peer S W × Result ℕ
  encrypted_send p plaintext =
      let sealed = proto.encrypt p.session plaintext in
      elim sealed.1 [
        | err e ↦ (record p { session = sealed.0 }, err e)
        | ok ciphertext ↦
            (let written = egress.write p.writer ciphertext in
              (record p { session = sealed.0; writer = written.0 }, written.1))
      ]

  unfoldable pub send : Peer S W → Bytes → Peer S W × Result ℕ
  send p plaintext = if p.closed then (p, err peer_closed) else encrypted_send p plaintext
