-- ===== src/Server/RegistrationQueue/Enqueue.antt =====
-- What `enqueue` does to the unread datagrams.
use tun_go.Base.{
  ℕ, ◌+◌, ◌%◌, ◌≤◌, ◌<◌, ◌≡◌, ◌≢◌, refl, sym, ap, ◌∙◌, List, [], ◌∷◌, ◌++◌, Bool, true, false, ◌||◌,
  ltb, ◌==◌, Bool-cases, inl, inr, ◌⊎◌, ℕ_discrete, Bytes, length, get_or, get_or-set_self,
  get_or-set_ne, set, length-set, copy_at, take_copied, length-copy_at, arith,
}
use tun_go.Server.RegistrationQueue.{
  RegistrationPacket, RegistrationQueue, empty_packet, slot, enqueue,
}
use tun_go.Server.RegistrationQueue.Unread.{
  datagram, unread, contents, Inv, wrap, unread-set, unread-last,
}

-- The queue with the datagram in the slot at the tail.
abbrev pub stored : RegistrationQueue → Bytes → RegistrationQueue
stored q pkt = record q {
  queue = set q.queue q.tail (record {
    n = length pkt;
    buffer = copy_at 0 pkt (get_or q.queue q.tail empty_packet).buffer;
  });
  tail = (q.tail + 1) % length q.queue;
  count = q.count + 1;
}

module _ (q : RegistrationQueue) (pkt : Bytes) (v : Inv q) (room : q.count < length q.queue)
    (fits : length pkt ≤ 1536) where
  abbrev pub written : RegistrationPacket
  written = record {
    n = length pkt;
    buffer = copy_at 0 pkt (get_or q.queue q.tail empty_packet).buffer;
  }

  pub tail_in : q.tail < length q.queue
  tail_in = ground (
    arith,
    v.tail_is,
    v.head_in,
    wrap (length q.queue) (q.head + q.count) (omega (arith, v.head_in)),
  )

  pub written_at :
      (i : ℕ) → i ≡ q.tail → get_or (set q.queue q.tail written) i empty_packet ≡ written
  written_at i e = rw e (get_or-set_self q.queue q.tail written empty_packet tail_in)

  pub kept_at :
      (i : ℕ)
      → i ≢ q.tail
      → get_or (set q.queue q.tail written) i empty_packet ≡ get_or q.queue i empty_packet
  kept_at i e = get_or-set_ne q.queue q.tail i written empty_packet (λ p. e (sym p))

  pub same_length : length (set q.queue q.tail written) ≡ length q.queue
  same_length = length-set q.queue q.tail written

  pub stored-Inv : Inv (stored q pkt)
  stored-Inv = record {
    head_in = omega (arith, same_length, v.head_in);
    count_in = omega (arith, same_length);
    tail_is = rw same_length (
        ground (
          arith,
          v.tail_is,
          v.head_in,
          wrap (length q.queue) (q.head + q.count) (omega (arith, v.head_in)),
          wrap (length q.queue) (q.tail + 1) (omega (arith, tail_in)),
          wrap (length q.queue) (q.head + (q.count + 1)) (omega (arith, v.head_in)),
        ));
    sized = λ i inside. elim (ℕ_discrete i q.tail) [
      | yes e ↦ rw (written_at i e) (
          length-copy_at 0 pkt (get_or q.queue q.tail empty_packet).buffer ∙ v.sized q.tail tail_in)
      | no e ↦ rw (kept_at i e) (v.sized i (omega (arith, same_length)))
    ];
    filled = λ i inside. elim (ℕ_discrete i q.tail) [
      | yes e ↦ rw (written_at i e) fits
      | no e ↦ rw (kept_at i e) (v.filled i (omega (arith, same_length)))
    ];
  }

  pub tail_apart : (m : ℕ) → 0 ≤ m → m < 0 + q.count → q.tail ≢ (q.head + m) % length q.queue
  tail_apart m lo hi e = ground (
    arith,
    v.tail_is,
    v.head_in,
    e,
    wrap (length q.queue) (q.head + q.count) (omega (arith, v.head_in)),
    wrap (length q.queue) (q.head + m) (omega (arith, v.head_in)),
  )

  pub end_is_tail : (q.head + (0 + q.count)) % length (set q.queue q.tail written) ≡ q.tail
  end_is_tail =
      rw same_length (ap (λ (m : ℕ). (q.head + m) % length q.queue) (omega arith) ∙ sym v.tail_is)

  pub last_is :
      datagram (
        get_or
          (set q.queue q.tail written)
          ((q.head + (0 + q.count)) % length (set q.queue q.tail written))
          empty_packet)
      ≡ pkt
  last_is =
      ap datagram (written_at _ end_is_tail)
      ∙ take_copied pkt (get_or q.queue q.tail empty_packet).buffer
          (omega (arith, v.sized q.tail tail_in))

  pub stored-contents : contents (stored q pkt) ≡ contents q ++ (pkt ∷ [])
  stored-contents =
      ap (λ (n : ℕ). unread (set q.queue q.tail written) q.head 0 n) (omega arith)
      ∙ (unread-last (set q.queue q.tail written) q.head 0 q.count
          ∙ (ap
                (λ (x : List Bytes).
                  x
                  ++ (datagram (
                        get_or (set q.queue q.tail written)
                          ((q.head + (0 + q.count)) % length (set q.queue q.tail written))
                          empty_packet)
                      ∷ []))
                (unread-set q.queue q.head 0 q.count q.tail written tail_apart)
              ∙ ap (λ (x : Bytes). contents q ++ (x ∷ [])) last_is))

-- Why a datagram is dropped.
abbrev pub dropped : RegistrationQueue → Bytes → Bool
dropped q pkt = q.closed || ((q.count == length q.queue) || ltb 1536 (length pkt))

pub slot_size :
    (q : RegistrationQueue)
    → Inv q
    → q.count ≢ length q.queue
    → length (slot q q.tail).buffer ≡ 1536
unfolding slot
slot_size q v room = v.sized q.tail (
    ground (
      arith,
      v.tail_is,
      v.head_in,
      v.count_in,
      wrap (length q.queue) (q.head + q.count) (omega (arith, v.head_in, v.count_in)),
    ))

pub enqueue-dropped :
    (q : RegistrationQueue) (pkt : Bytes) → Inv q → dropped q pkt ≡ true → enqueue q pkt ≡ q
unfolding enqueue
enqueue-dropped q pkt v e = elim (ℕ_discrete q.count (length q.queue)) [
  | yes full ↦ ground arith
  | no room ↦ ground (arith, slot_size q v room)
]

pub enqueue-stored :
    (q : RegistrationQueue) (pkt : Bytes)
    → Inv q
    → dropped q pkt ≡ false
    → (q.count ≢ length q.queue) × (length pkt ≤ 1536) × (enqueue q pkt ≡ stored q pkt)
unfolding enqueue
enqueue-stored q pkt v e =
    let room : q.count ≢ length q.queue = λ p. ground (arith, p, e) in
    (room, ground arith, unfold slot in ground (arith, slot_size q v room))

still_open : (q : RegistrationQueue) (pkt : Bytes) → dropped q pkt ≡ false → q.closed ≡ false
still_open q pkt e = ground arith

-- Enqueue on a valid ring leaves a valid ring. If the queue is closed or full or the datagram is
-- longer than 1536 bytes, the queue is exactly what it was; otherwise the datagram is appended to
-- the unread ones, and the queue is open, with its head and its number of slots unchanged.
pub enqueue-contents :
    (q : RegistrationQueue) (pkt : Bytes)
    → Inv q
    → Inv (enqueue q pkt)
      × (((dropped q pkt ≡ true) × (enqueue q pkt ≡ q))
          ⊎ ((dropped q pkt ≡ false)
              × (contents (enqueue q pkt) ≡ contents q ++ (pkt ∷ []))
              × ((enqueue q pkt).closed ≡ false)
              × (length (enqueue q pkt).queue ≡ length q.queue)
              × ((enqueue q pkt).head ≡ q.head)))
enqueue-contents q pkt v = elim (Bool-cases (dropped q pkt)) [
  | inl e ↦ (rw (enqueue-dropped q pkt v e) v, inl (e, enqueue-dropped q pkt v e))
  | inr e ↦
      let (room, fits, done) = enqueue-stored q pkt v e in
      (
        rw done (stored-Inv q pkt v (omega (arith, v.count_in, room)) fits),
        inr (
          e,
          rw done (stored-contents q pkt v (omega (arith, v.count_in, room)) fits),
          rw done (still_open q pkt e),
          rw done (same_length q pkt v (omega (arith, v.count_in, room)) fits),
          rw done refl,
        ),
      )
]
