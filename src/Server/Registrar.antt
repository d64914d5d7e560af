-- ===== src/Server/Registrar.antt =====
-- src/internal/server/udp/registration.go and the like in tcp/registration.go: the datagrams of
-- clients that are still shaking hands, and how a finished handshake becomes a peer. The handshake is
-- `Noise`; what it and the crypto made of it gave is an argument of `register`. The maps hold the
-- queues themselves.
pub mod Bounded
pub mod Installed
pub mod Registered
use tun_go.Base.{
  ℕ, ◌+◌, List, [], ◌∷◌, ◌++◌, Bool, true, false, Option, none, some, leb, if◌then◌else◌, Bytes,
  length, map, Result, ok, err, Error, ◌==◌, ==_iff, ◌≡◌, ◌↔◌, arith,
}
use tun_go.Base.Table.{Eq, Table, find, delete, put}
use tun_go.Ip.{Addr, same_addr}
use tun_go.Ip.Prefix.{AddrPort, Prefix, same_addr_port, same_addr_iff, prefix_from, is_valid}
use tun_go.Config.Addressing.{allocate_client_ip}
use tun_go.Server.RegistrationQueue.{RegistrationQueue, new_registration_queue, enqueue, close}
use tun_go.Server.Peer.{Protocol, Egress, new_peer_with_auth}
use tun_go.Server.Repository.{Repository, modify, get_by_internal_addr_port, add, delete_locked}

pub same_addr_port_iff : (a b : AddrPort) → (same_addr_port a b ≡ true) ↔ (a ≡ b)
unfolding same_addr_port
same_addr_port_iff a b = ground (arith, same_addr_iff a.addr b.addr)

instance abbrev pub addr_port_eq : Eq AddrPort
addr_port_eq = record { beq = same_addr_port; beq_iff = same_addr_port_iff }

abbrev pub registration_queue_capacity : ℕ
registration_queue_capacity = 16

abbrev pub max_concurrent_registrations : ℕ
max_concurrent_registrations = 1000

abbrev pub Registrations : Type 0
Registrations = Table AddrPort RegistrationQueue

-- The queue of the address, whether it is new, and the map with it.
unfoldable pub get_or_create_registration_queue :
    Registrations → AddrPort → Registrations × Option (RegistrationQueue × Bool)
get_or_create_registration_queue r a = elim (find a r) [
  | some q ↦ (r, some (q, false))
  | none ↦
      (if leb max_concurrent_registrations (length r) then (r, none) else (
        put a (new_registration_queue registration_queue_capacity) r,
        some (new_registration_queue registration_queue_capacity, true),
      ))
]

-- The map, and whether a registration of the client begins.
unfoldable pub enqueue_packet : Registrations → AddrPort → Bytes → Registrations × Bool
unfolding get_or_create_registration_queue
enqueue_packet r a packet =
    let got = get_or_create_registration_queue r a in
    elim got.1 [
      | none ↦ (got.0, false)
      | some (q, is_new) ↦ (put a (enqueue q packet) got.0, is_new)
    ]

-- The queue that is taken off is closed.
unfoldable pub remove_registration_queue :
    Registrations → AddrPort → Registrations × Option RegistrationQueue
remove_registration_queue r a = elim (find a r) [
  | none ↦ (r, none)
  | some q ↦ (delete a r, some (close q))
]

unfoldable pub close_all : Registrations → Registrations × List RegistrationQueue
close_all r = ([], map (λ e. close e.1) r)

-- The client's IPv6 address beside what the handshake allows.
unfoldable pub with_ipv6 : Prefix → ℕ → List Prefix → List Prefix
with_ipv6 subnet client_id allowed =
    if is_valid subnet
    then elim (allocate_client_ip subnet client_id) [
      | err e ↦ allowed
      | ok a ↦ allowed ++ prefix_from a (some 128) ∷ []
    ]
    else allowed

-- What a handshake gave: the client's id, its key and its prefixes.
pub record Authenticated : Type 0 where
  pub client_id : ℕ
  pub client_pub_key : Bytes
  pub allowed_ips : List Prefix

module _ {S W : Type 0} (proto : Protocol S) (egress : Egress W) where
  -- A stale session under the address is closed first.
  unfoldable pub evict_stale : Repository S W → Addr → Repository S W
  evict_stale r a = elim (get_by_internal_addr_port r a) [
    | err e ↦ r
    | ok p ↦ delete_locked proto egress r p
  ]

  -- The end of `registerClient`, with `p` the pointer to the new peer.
  unfoldable pub register :
      Repository S W
      → Prefix
      → Prefix
      → Authenticated
      → Result S
      → W
      → AddrPort
      → ℕ
      → ℕ
      → Repository S W × Result Addr
  unfolding evict_stale with_ipv6
  register r subnet ipv6 who crypto writer external now p =
      elim (allocate_client_ip subnet who.client_id) [
        | err e ↦ (r, err e)
        | ok ip ↦ elim crypto [
          | err e ↦ (r, err e)
          | ok s ↦ (
            add proto
                (modify (evict_stale r ip) p (
                  new_peer_with_auth s writer ip external who.client_pub_key
                    (with_ipv6 ipv6 who.client_id who.allowed_ips) now))
                p,
            ok ip,
          )
        ]
      ]
