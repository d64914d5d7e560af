-- ===== src/Server/Registrar/Bounded.antt =====
-- The number of clients that shake hands at once is bounded, and a newcomer disturbs none of them
-- (udp/registration.go).
use tun_go.Base.{
  ℕ, ◌+◌, ◌<◌, ◌≤◌, ◌≡◌, ◌≢◌, refl, true, false, Option, none, some, leb, if◌then◌else◌, Bytes,
  length, [], ◌∷◌, arith, Option-cases, Bool-cases, inl, inr,
}
use tun_go.Base.Table.{find, delete, put, find-put, length-delete-le}
use tun_go.Ip.Prefix.{AddrPort, same_addr_port}
use tun_go.Server.RegistrationQueue.{RegistrationQueue, new_registration_queue, enqueue}
use tun_go.Server.Registrar.{
  addr_port_eq, same_addr_port_iff, Registrations, registration_queue_capacity,
  max_concurrent_registrations, get_or_create_registration_queue, enqueue_packet,
}

leb-false : (n m : ℕ) → leb n m ≡ false → m < n
leb-false n m h = ground arith

-- A key that is in the map is taken out of it.
length-delete_found :
    (a : AddrPort) (r : Registrations) (q : RegistrationQueue)
    → find a r ≡ some q
    → length (delete a r) + 1 ≤ length r
unfolding find delete
length-delete_found a [] q h = absurd (cc)
length-delete_found a ((b, v) ∷ r) q h =
    ground (arith, length-delete_found a r q, length-delete-le a r)

length-put_found :
    (a : AddrPort) (r : Registrations) (q v : RegistrationQueue)
    → find a r ≡ some q
    → length (put a v r) ≤ length r
unfolding put
length-put_found a r q v h = omega (arith, length-delete_found a r q h)

length-put-le :
    (a : AddrPort) (r : Registrations) (v : RegistrationQueue) → length (put a v r) ≤ length r + 1
unfolding put
length-put-le a r v = omega (arith, length-delete-le a r)

find-put_self :
    (a : AddrPort) (r : Registrations) (v : RegistrationQueue) → find a (put a v r) ≡ some v
find-put_self a r v = ground (arith, find-put a a v r, (same_addr_port_iff a a).1 refl)

find-put_ne :
    (a b : AddrPort) (r : Registrations) (v : RegistrationQueue)
    → b ≢ a
    → find b (put a v r) ≡ find b r
find-put_ne a b r v ne = ground (arith, find-put a b v r, same_addr_port_iff a b)

module _ (r : Registrations) (a : AddrPort) (packet : Bytes) where
  -- The three ways that a datagram goes.
  known :
      (q : RegistrationQueue)
      → find a r ≡ some q
      → enqueue_packet r a packet ≡ (put a (enqueue q packet) r, false)
  unfolding enqueue_packet get_or_create_registration_queue
  known q e = ground (arith, e)

  full :
      find a r ≡ none
      → leb max_concurrent_registrations (length r) ≡ true
      → enqueue_packet r a packet ≡ (r, false)
  unfolding enqueue_packet get_or_create_registration_queue
  full e f = ground (arith, e, f)

  abbrev fresh : RegistrationQueue
  fresh = new_registration_queue registration_queue_capacity

  newcomer :
      find a r ≡ none
      → leb max_concurrent_registrations (length r) ≡ false
      → enqueue_packet r a packet ≡ (put a (enqueue fresh packet) (put a fresh r), true)
  unfolding enqueue_packet get_or_create_registration_queue
  newcomer e f = ground (arith, e, f)

  -- What the sender's queue becomes: a new one is made only while there is room.
  abbrev pub served : Option RegistrationQueue
  served = elim (find a r) [
    | some q ↦ some (enqueue q packet)
    | none ↦
        (if leb max_concurrent_registrations (length r) then none else some (enqueue fresh packet))
  ]

  -- A datagram of a client that is not registered keeps the number of registrations within its
  -- bound; the sender's queue gets it, in a new queue if there was none and there is room, and
  -- every other client's queue stays as it is.
  pub enqueue_packet_lem :
      (b : AddrPort)
      → length r ≤ max_concurrent_registrations
      → (length (enqueue_packet r a packet).0 ≤ max_concurrent_registrations)
        × (find b (enqueue_packet r a packet).0 ≡ (if same_addr_port a b then served else find b r))
  enqueue_packet_lem b h = elim (Option-cases (find a r)) [
    | inr (q, e) ↦ rw (known q e) (
      omega (arith, length-put_found a r q (enqueue q packet) e),
      ground (arith, find-put a b (enqueue q packet) r, e),
    )
    | inl e ↦ elim (Bool-cases (leb max_concurrent_registrations (length r))) [
      | inl f ↦ rw (full e f) (h, ground (arith, e, f, same_addr_port_iff a b))
      | inr f ↦ rw (newcomer e f) (
        omega (
          arith,
          length-put_found a (put a fresh r) fresh (enqueue fresh packet) (find-put_self a r fresh),
          length-put-le a r fresh,
          leb-false _ _ f,
        ),
        ground (
          arith,
          find-put a b (enqueue fresh packet) (put a fresh r),
          find-put a b fresh r,
          e,
          f,
        ),
      )
    ]
  ]
