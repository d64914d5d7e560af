-- ===== src/Server/RegistrationQueue/Unread.antt =====
-- The unread datagrams of the ring, and how they move when a slot is written or the head taken out.
use tun_go.Base.{
  ℕ, zero, suc, ◌+◌, ◌-◌, ◌%◌, ◌≤◌, ◌<◌, ◌≡◌, ◌≢◌, refl, sym, ap, ◌∙◌, List, [], ◌∷◌, ◌++◌, ltb,
  if◌then◌else◌, dec_lt, Bytes, length, take, replicate, length-replicate, get_or, get_or-set_ne,
  get_or-replicate, set, length-set, arith,
}
use native.Mathlib.Nat.{mod-eq_of_lt, mod-eq-sub-mod}
use tun_go.Server.RegistrationQueue.{
  RegistrationPacket, RegistrationQueue, empty_packet, new_registration_queue,
}

-- What a slot holds.
abbrev pub datagram : RegistrationPacket → Bytes
datagram p = take p.n p.buffer

-- The `k` datagrams from the `i`-th position behind the head on.
unfoldable pub unread : List RegistrationPacket → ℕ → ℕ → ℕ → List Bytes
unread l h i zero = []
unread l h i (suc k) = datagram (get_or l ((h + i) % length l) empty_packet) ∷ unread l h (suc i) k

abbrev pub contents : RegistrationQueue → List Bytes
contents q = unread q.queue q.head 0 q.count

pub record Inv (q : RegistrationQueue) : Type 0 where
  pub head_in : q.head < length q.queue
  pub count_in : q.count ≤ length q.queue
  pub tail_is : q.tail ≡ (q.head + q.count) % length q.queue
  pub sized : (i : ℕ) → i < length q.queue → length (get_or q.queue i empty_packet).buffer ≡ 1536
  pub filled : (i : ℕ) → i < length q.queue → (get_or q.queue i empty_packet).n ≤ 1536

-- `newRegistrationQueue` of a capacity above 0.
pub new-Inv : (capacity : ℕ) → 1 ≤ capacity → Inv (new_registration_queue capacity)
unfolding new_registration_queue
new-Inv capacity some_slot = record {
  head_in = omega (arith, length-replicate capacity empty_packet);
  count_in = omega (arith, length-replicate capacity empty_packet);
  tail_is = sym (
      mod-eq_of_lt {n = 0} {m = length (replicate capacity empty_packet)}
        (omega (arith, length-replicate capacity empty_packet)));
  sized = λ i inside. rw (get_or-replicate capacity i empty_packet) (unfold empty_packet in refl);
  filled = λ i inside.
      rw (get_or-replicate capacity i empty_packet) (unfold empty_packet in omega arith);
}

pub wrap : (cap x : ℕ) → x < cap + cap → x % cap ≡ (if ltb x cap then x else x - cap)
wrap cap x h = elim (dec_lt x cap) [
  | yes p ↦ ground (arith, mod-eq_of_lt p)
  | no p ↦ ground (
    arith,
    mod-eq-sub-mod {n = x} {m = cap} (omega arith),
    mod-eq_of_lt {n = x - cap} {m = cap} (omega arith),
  )
]

pub next_in : (cap h : ℕ) → h < cap → (h + 1) % cap < cap
next_in cap h inside = ground (arith, wrap cap (h + 1) (omega arith))

-- Writing a slot that is not among them leaves them.
pub unread-set :
    (l : List RegistrationPacket) (h i k j : ℕ) (p : RegistrationPacket)
    → ((m : ℕ) → i ≤ m → m < i + k → j ≢ (h + m) % length l)
    → unread (set l j p) h i k ≡ unread l h i k
unfolding unread
unread-set l h i zero j p apart = refl
unread-set l h i (suc k) j p apart =
    ap (λ (x : Bytes). x ∷ unread (set l j p) h (suc i) k)
      (ap (λ (c : ℕ). datagram (get_or (set l j p) ((h + i) % c) empty_packet)) (length-set l j p)
        ∙ ap datagram (
            get_or-set_ne l j ((h + i) % length l) p empty_packet
              (apart i (omega arith) (omega arith))))
    ∙ ap (◌∷◌ (datagram (get_or l ((h + i) % length l) empty_packet)))
        (unread-set l h (suc i) k j p (λ m lo hi. apart m (omega arith) (omega arith)))

pub unread-last :
    (l : List RegistrationPacket) (h i k : ℕ)
    → unread l h i (suc k)
      ≡ unread l h i k ++ (datagram (get_or l ((h + (i + k)) % length l) empty_packet) ∷ [])
unfolding unread
unread-last l h i zero =
    ap (λ (m : ℕ). datagram (get_or l ((h + m) % length l) empty_packet) ∷ []) (omega arith)
unread-last l h i (suc k) = ap (◌∷◌ (datagram (get_or l ((h + i) % length l) empty_packet))) (
    unread-last l h (suc i) k
    ∙ ap
        (λ (m : ℕ).
          unread l h (suc i) k ++ (datagram (get_or l ((h + m) % length l) empty_packet) ∷ []))
        (omega arith))

-- Taking the head out leaves what is behind it.
pub unread-shift :
    (l : List RegistrationPacket) (h i k : ℕ)
    → h < length l
    → i + k < length l
    → unread l ((h + 1) % length l) i k ≡ unread l h (suc i) k
unfolding unread
unread-shift l h i zero inside below = refl
unread-shift l h i (suc k) inside below =
    ap (λ (x : Bytes). x ∷ unread l ((h + 1) % length l) (suc i) k)
      (ap (λ (m : ℕ). datagram (get_or l m empty_packet)) moved)
    ∙ ap (◌∷◌ (datagram (get_or l ((h + suc i) % length l) empty_packet)))
        (unread-shift l h (suc i) k inside (omega arith))
  where
    moved : ((h + 1) % length l + i) % length l ≡ (h + suc i) % length l
    moved = ground (
      arith,
      wrap (length l) (h + 1) (omega arith),
      wrap (length l) ((h + 1) % length l + i) (omega (arith, next_in (length l) h inside)),
      wrap (length l) (h + suc i) (omega arith),
    )
