-- ===== src/Nonce/Counter.antt =====
-- The nonce as one 80-bit counter: it counts up without repeating, and its bytes determine it.
use tun_go.Base.{
  ℕ, zero, suc, ◌+◌, ◌-◌, ◌*◌, ◌^◌, ◌<◌, ◌≡◌, ap, ◌≢◌, Bytes, take, drop, put_be, be, be-put_be,
  Result, ok, err, map_ok, nonce_overflow, sym, refl, ◌∙◌, arith,
}
use tun_go.Nonce.{Nonce, IsNonce, increment, encode, peek_encode}

-- The counter that the two fields hold.
abbrev pub counter : Nonce → ℕ
counter n = n.counter_high * 2 ^ 64 + n.counter_low

abbrev pub last_counter : ℕ
last_counter = 2 ^ 80 - 1

-- What a call of `increment` may return.
abbrev pub Advances : Nonce → Result Nonce → Type 0
Advances n (ok n') =
    (counter n < last_counter) × (counter n' ≡ counter n + 1) × (n'.epoch ≡ n.epoch) × IsNonce n'
Advances n (err e) = (counter n ≡ last_counter) × (e ≡ nonce_overflow)

-- On a nonce whose fields fit their types, Increment fails exactly at the last of the 2^80 counter
-- values, and otherwise returns the next one with the epoch kept and every field within its type.
pub increment-Advances : (n : Nonce) → IsNonce n → Advances n (increment n)
unfolding increment
increment-Advances n v = ground arith

-- PeekEncode gives the bytes that Encode gives after Increment, and fails when Increment fails.
pub peek_encode_lem :
    (n : Nonce) (buf : Bytes) → peek_encode n buf ≡ map_ok (λ n'. encode n' buf) (increment n)
unfolding increment peek_encode encode
peek_encode_lem n buf = ground arith

-- The reader's view of the first 12 bytes, as udp.Session.Decrypt and udp.Crypto.Decrypt take them.
abbrev pub read_low : Bytes → ℕ
read_low b = be (take 8 b)

abbrev pub read_high : Bytes → ℕ
read_high b = be (take 2 (drop 8 b))

abbrev pub read_epoch : Bytes → ℕ
read_epoch b = be (take 2 (drop 10 b))

pub read-encode :
    (n : Nonce) (buf : Bytes)
    → IsNonce n
    → (read_low (encode n buf) ≡ n.counter_low)
      × (read_high (encode n buf) ≡ n.counter_high)
      × (read_epoch (encode n buf) ≡ n.epoch)
unfolding encode put_be
read-encode n buf v = (
  be-put_be 8 n.counter_low (omega arith),
  be-put_be 2 n.counter_high (omega arith),
  be-put_be 2 n.epoch (omega arith),
)

-- `k` successful calls of `Increment`.
abbrev pub advance : ℕ → Nonce → Result Nonce
advance zero n = ok n
advance (suc k) n = elim (increment n) [ err e ↦ err e | ok m ↦ advance k m ]

advance-counter :
    (k : ℕ) (n : Nonce) {n' : Nonce}
    → IsNonce n
    → advance k n ≡ ok n'
    → (counter n' ≡ counter n + k) × (n'.epoch ≡ n.epoch) × IsNonce n'
advance-counter zero n v e = ground arith
advance-counter (suc k) n {n'} v e =
    go (increment n) refl (increment-Advances n v) (λ m. advance-counter k m {n' = n'})
  where
    go :
        (r : Result Nonce)
        → increment n ≡ r
        → Advances n r
        → ((m : Nonce)
            → IsNonce m
            → advance k m ≡ ok n'
            → (counter n' ≡ counter m + k) × (n'.epoch ≡ m.epoch) × IsNonce n')
        → (counter n' ≡ counter n + suc k) × (n'.epoch ≡ n.epoch) × IsNonce n'
    go (err x) q a ih = absurd (let stuck : advance (suc k) n ≡ err x = rw (q, advance) refl in cc)
    go (ok m) q a ih =
        let later : advance k m ≡ ok n' = sym (rw (q, advance) refl) ∙ e in
        ground (arith, ih m a.3 later)

-- After different numbers of successful Increments of one well-formed nonce the 12 encoded bytes
-- differ, whatever the buffers held.
pub nonces_distinct :
    (i j : ℕ) (n : Nonce) {a b : Nonce} (buf buf' : Bytes)
    → IsNonce n
    → advance i n ≡ ok a
    → advance j n ≡ ok b
    → i ≢ j
    → encode a buf ≢ encode b buf'
nonces_distinct i j n {a} {b} buf buf' v p q ne same = ne (
    omega (
      arith,
      advance-counter i n v p,
      advance-counter j n v q,
      ap read_low same,
      ap read_high same,
      read-encode a buf (advance-counter i n v p).2,
      read-encode b buf' (advance-counter j n v q).2,
    ))
