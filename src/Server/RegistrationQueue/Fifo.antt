-- ===== src/Server/RegistrationQueue/Fifo.antt =====
-- What `ReadInto` takes out of the unread datagrams.
use tun_go.Base.{
  ℕ, zero, suc, ◌+◌, ◌-◌, ◌%◌, ◌≤◌, ◌≡◌, refl, sym, ap, ◌∙◌, List, [], ◌∷◌, none, some,
  if◌then◌else◌, Bytes, length, take, get_or, copy_at, take_copied, length-take, ok, err, eof,
  arith,
}
use tun_go.Server.RegistrationQueue.{
  RegistrationPacket, RegistrationQueue, empty_packet, slot, read_into,
}
use tun_go.Server.RegistrationQueue.Unread.{
  datagram, unread, contents, Inv, wrap, next_in, unread-shift,
}

-- The queue without its first datagram.
abbrev taken : RegistrationQueue → RegistrationQueue
taken q = record q { head = (q.head + 1) % length q.queue; count = q.count - 1 }

taken-Inv : (q : RegistrationQueue) → Inv q → 1 ≤ q.count → Inv (taken q)
taken-Inv q v some_one = record {
  head_in = next_in (length q.queue) q.head v.head_in;
  count_in = omega (arith, v.count_in);
  tail_is = ground (
    arith,
    v.tail_is,
    v.head_in,
    v.count_in,
    wrap (length q.queue) (q.head + q.count) (omega (arith, v.head_in, v.count_in)),
    wrap (length q.queue) (q.head + 1) (omega (arith, v.head_in)),
    wrap (length q.queue) ((q.head + 1) % length q.queue + (q.count - 1))
        (omega (arith, v.count_in, next_in (length q.queue) q.head v.head_in)),
  );
  sized = v.sized;
  filled = v.filled;
}

unread_cons :
    (l : List RegistrationPacket) (h n : ℕ) {p : Bytes} {ps : List Bytes}
    → unread l h 0 n ≡ p ∷ ps
    → (1 ≤ n)
      × (datagram (get_or l ((h + 0) % length l) empty_packet) ≡ p)
      × (unread l h 1 (n - 1) ≡ ps)
unfolding unread
unread_cons l h zero e = absurd (cc)
unread_cons l h (suc n) {ps = ps} e =
    let rest : unread l h 1 n ≡ ps = cc in
    (omega arith, cc, ap (λ (k : ℕ). unread l h 1 k) (omega arith) ∙ rest)

unread_nil : (l : List RegistrationPacket) (h n : ℕ) → unread l h 0 n ≡ [] → n ≡ 0
unfolding unread
unread_nil l h zero e = refl
unread_nil l h (suc n) e = absurd (cc)

-- The first datagram is the one at the head.
first_at_head :
    (q : RegistrationQueue) {p : Bytes} {ps : List Bytes}
    → Inv q
    → contents q ≡ p ∷ ps
    → (1 ≤ q.count) × (datagram (slot q q.head) ≡ p) × (contents (taken q) ≡ ps)
unfolding slot
first_at_head q {p} {ps} v e =
    let (some_one, at_head, rest) = unread_cons q.queue q.head q.count e in
    let here : (q.head + 0) % length q.queue ≡ q.head =
      ground (arith, v.head_in, wrap (length q.queue) (q.head + 0) (omega (arith, v.head_in))) in
    (
      some_one,
      ap (λ (i : ℕ). datagram (get_or q.queue i empty_packet)) (sym here) ∙ at_head,
      unread-shift q.queue q.head 0 (q.count - 1) v.head_in (omega (arith, v.count_in)) ∙ rest,
    )

size_of_first :
    (q : RegistrationQueue) {p : Bytes}
    → Inv q
    → datagram (slot q q.head) ≡ p
    → (slot q q.head).n ≡ length p
unfolding slot
size_of_first q e_v e =
    let h : ℕ = q.head in
    omega (
      arith,
      ap length e,
      length-take (get_or q.queue h empty_packet).n (get_or q.queue h empty_packet).buffer,
      e_v.filled h e_v.head_in,
      e_v.sized h e_v.head_in,
    )

read_into_room :
    (q : RegistrationQueue) (dst : Bytes)
    → 1 ≤ q.count
    → (slot q q.head).n ≤ length dst
    → read_into q dst
      ≡ some (taken q, copy_at 0 (datagram (slot q q.head)) dst, ok (slot q q.head).n)
unfolding read_into
read_into_room q dst some_one room = ground arith

-- ReadInto a buffer with room for the first unread datagram returns its length, puts it at the
-- front of the buffer, and leaves a valid queue with the others in order.
pub read_into_first :
    (q : RegistrationQueue) (dst : Bytes) {p : Bytes} {ps : List Bytes}
    → Inv q
    → contents q ≡ p ∷ ps
    → length p ≤ length dst
    → (q' : RegistrationQueue) × (dst' : Bytes) × (read_into q dst ≡ some (q', dst', ok (length p)))
      × Inv q'
      × (contents q' ≡ ps)
      × (take (length p) dst' ≡ p)
read_into_first q dst {p} v e room =
    let (some_one, at_head, rest) = first_at_head q v e in
    let size : (slot q q.head).n ≡ length p = size_of_first q v at_head in
    (
      taken q,
      copy_at 0 p dst,
      read_into_room q dst some_one (omega arith)
          ∙ (ap (λ (x : Bytes). some (taken q, copy_at 0 x dst, ok (slot q q.head).n)) at_head
              ∙ ap (λ (k : ℕ). some (taken q, copy_at 0 p dst, ok k)) size),
      taken-Inv q v some_one,
      rest,
      take_copied p dst room,
    )

-- With no unread datagram ReadInto waits while the queue is open, and reports the end of the
-- stream once it is closed, with nothing changed.
pub read_into-none :
    (q : RegistrationQueue) (dst : Bytes)
    → contents q ≡ []
    → read_into q dst ≡ (if q.closed then some (q, dst, err eof) else none)
unfolding read_into
read_into-none q dst e = ground (arith, unread_nil q.queue q.head q.count e)
