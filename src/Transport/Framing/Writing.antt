-- ===== src/Transport/Framing/Writing.antt =====
-- What the loop of `writeFull` sends, whatever pieces the adapter takes it in.
use tun_go.Base.{
  ℕ, zero, suc, ◌+◌, ◌%◌, ◌^◌, ◌≤◌, ◌<◌, ◌≡◌, ◌≢◌, refl, sym, ap, ◌∙◌, List, [], ◌∷◌, ◌++◌, Option,
  none, some, inl, inr, Option-cases, Bytes, length, length-drop, take, drop, put_be, length-put_be,
  Error, ok, short_write, out_of_fuel, arith, ℕ_discrete,
}
use native.Mathlib.Nat.{suc-add}
use tun_go.Transport.Framing.{FramedConn, write_full, write}

pub append_assoc {ℓ} : {A : Type ℓ} (xs ys zs : List A) → (xs ++ ys) ++ zs ≡ xs ++ (ys ++ zs)
append_assoc [] ys zs = refl
append_assoc (x ∷ xs) ys zs = ap (◌∷◌ x) (append_assoc xs ys zs)

pub append_nil {ℓ} : {A : Type ℓ} (xs : List A) → xs ++ [] ≡ xs
append_nil [] = refl
append_nil (x ∷ xs) = ap (◌∷◌ x) (append_nil xs)

pub take-++-drop {ℓ} : {A : Type ℓ} (n : ℕ) (xs : List A) → take n xs ++ drop n xs ≡ xs
take-++-drop zero xs = refl
take-++-drop (suc n) [] = refl
take-++-drop (suc n) (x ∷ xs) = ap (◌∷◌ x) (take-++-drop n xs)

pub take_nil {ℓ} : {A : Type ℓ} (n : ℕ) → take {A = A} n [] ≡ []
take_nil zero = refl
take_nil (suc n) = refl

pub take-++-take {ℓ} :
    {A : Type ℓ} (n k : ℕ) (xs : List A) → take n xs ++ take k (drop n xs) ≡ take (n + k) xs
take-++-take zero k xs = ground arith
take-++-take (suc n) k [] = take_nil k ∙ sym (take_nil (suc n + k))
take-++-take (suc n) k (x ∷ xs) =
    ap (◌∷◌ x) (take-++-take n k xs) ∙ ap (λ (j : ℕ). take j (x ∷ xs)) (sym (suc-add n k))

-- The documented behaviour of `io.Writer`, with what was sent so far as an observation: a call
-- sends the first `n` bytes of its argument.
pub record WriterLaws {W : Type 0} (write_adapter : W → Bytes → W × ℕ × Option Error) : Type 0 where
  pub sent : W → Bytes
  pub at_most : (w : W) (p : Bytes) → (write_adapter w p).1 ≤ length p
  pub sends :
      (w : W) (p : Bytes) → sent (write_adapter w p).0 ≡ sent w ++ take (write_adapter w p).1 p
  pub own_errors :
      (w : W) (p : Bytes) (e : Error) → (write_adapter w p).2 ≡ some e → e ≢ out_of_fuel

module _ {W : Type 0} (write_adapter : W → Bytes → W × ℕ × Option Error)
    (laws : WriterLaws write_adapter) where
  -- What a run of the loop may have done.
  abbrev pub Wrote : W → Bytes → W × Option Error → Type 0
  Wrote w p (w', none) = laws.sent w' ≡ laws.sent w ++ p
  Wrote w p (w', some e) =
      (k : ℕ) × (k ≤ length p) × (laws.sent w' ≡ laws.sent w ++ take k p) × (e ≢ out_of_fuel)

  -- A round that sent `n` bytes, and then the rest.
  pub joined :
      (n : ℕ) (w w' : W) (p : Bytes) (r : W × Option Error)
      → n ≤ length p
      → laws.sent w' ≡ laws.sent w ++ take n p
      → Wrote w' (drop n p) r
      → Wrote w p r
  joined n w w' p (w'', none) few e v =
      v
      ∙ (ap (λ (x : Bytes). x ++ drop n p) e
          ∙ (append_assoc (laws.sent w) (take n p) (drop n p)
              ∙ ap (λ (x : Bytes). laws.sent w ++ x) (take-++-drop n p)))
  joined n w w' p (w'', some x) few e (k, below, v, own) = (
    n + k,
    omega (arith, length-drop n p),
    v
        ∙ (ap (λ (y : Bytes). y ++ take k (drop n p)) e
            ∙ (append_assoc (laws.sent w) (take n p) (take k (drop n p))
                ∙ ap (λ (y : Bytes). laws.sent w ++ y) (take-++-take n k p))),
    own,
  )

  -- One round of the loop, by what the adapter answered.
  pub round_failed :
      (fuel : ℕ) (w : W) (b : ℕ) (p : Bytes) {e : Error}
      → (write_adapter w (b ∷ p)).2 ≡ some e
      → write_full write_adapter (suc fuel) w (b ∷ p) ≡ ((write_adapter w (b ∷ p)).0, some e)
  unfolding write_full
  round_failed fuel w b p q = rw (q, write_full) refl

  pub round_stuck :
      (fuel : ℕ) (w : W) (b : ℕ) (p : Bytes)
      → (write_adapter w (b ∷ p)).2 ≡ none
      → (write_adapter w (b ∷ p)).1 ≡ 0
      → write_full write_adapter (suc fuel) w (b ∷ p)
        ≡ ((write_adapter w (b ∷ p)).0, some short_write)
  unfolding write_full
  round_stuck fuel w b p q z = rw (q, write_full) (ground arith)

  pub round_went :
      (fuel : ℕ) (w : W) (b : ℕ) (p : Bytes)
      → (write_adapter w (b ∷ p)).2 ≡ none
      → (write_adapter w (b ∷ p)).1 ≢ 0
      → write_full write_adapter (suc fuel) w (b ∷ p)
        ≡ write_full write_adapter fuel
            (write_adapter w (b ∷ p)).0
            (drop (write_adapter w (b ∷ p)).1 (b ∷ p))
  unfolding write_full
  round_went fuel w b p q z = rw (q, write_full) (ground arith)

  pub write_full-Wrote :
      (fuel : ℕ) (w : W) (p : Bytes)
      → length p ≤ fuel
      → Wrote w p (write_full write_adapter fuel w p)
  unfolding write_full
  write_full-Wrote zero w [] enough = sym (append_nil (laws.sent w))
  write_full-Wrote (suc fuel) w [] enough = sym (append_nil (laws.sent w))
  write_full-Wrote zero w (b ∷ p) enough = absurd (omega arith)
  write_full-Wrote (suc fuel) w (b ∷ p) enough =
      let w' : W = (write_adapter w (b ∷ p)).0 in
      let n : ℕ = (write_adapter w (b ∷ p)).1 in
      elim (Option-cases (write_adapter w (b ∷ p)).2) [
        | inr (e, q) ↦
            rw (round_failed fuel w b p q)
              (n, laws.at_most w (b ∷ p), laws.sends w (b ∷ p), laws.own_errors w (b ∷ p) e q)
        | inl q ↦ elim (ℕ_discrete n 0) [
          | yes z ↦
              rw (round_stuck fuel w b p q z)
                (n, laws.at_most w (b ∷ p), laws.sends w (b ∷ p), λ e. cc)
          | no z ↦ rw (round_went fuel w b p q z) (
              joined n w w' (b ∷ p) (write_full write_adapter fuel w' (drop n (b ∷ p)))
                (laws.at_most w (b ∷ p)) (laws.sends w (b ∷ p))
                (write_full-Wrote fuel w' (drop n (b ∷ p)) (omega (arith, length-drop n (b ∷ p)))))
        ]
      ]

  pub write_payload :
      (a : FramedConn W) (payload : Bytes) {n : ℕ}
      → (write write_adapter a payload).1 ≡ ok n
      → (n ≡ length payload)
        × (1 ≤ length payload)
        × (length payload ≤ a.frame_cap)
        × ((write_full write_adapter 2 a.adapter (put_be 2 (length payload % 2 ^ 16))).1 ≡ none)
        × ((write_full write_adapter
              (length payload)
              (write_full write_adapter 2 a.adapter (put_be 2 (length payload % 2 ^ 16))).0
              payload).1
            ≡ none)
        × ((write write_adapter a payload).0.adapter
            ≡ (write_full write_adapter
                (length payload)
                (write_full write_adapter 2 a.adapter (put_be 2 (length payload % 2 ^ 16))).0
                payload).0)
  unfolding write
  write_payload a payload e = ground arith

  pub Wrote-all :
      (w : W) (p : Bytes) (r : W × Option Error)
      → Wrote w p r
      → r.1 ≡ none
      → laws.sent r.0 ≡ laws.sent w ++ p
  Wrote-all w p (w', none) v e = v
  Wrote-all w p (w', some x) v e = absurd (cc)

  -- A `Write` that returns without error has sent the length in two bytes, and the payload.
  pub write-sends :
      (a : FramedConn W) (payload : Bytes) {n : ℕ}
      → a.frame_cap < 2 ^ 16
      → (write write_adapter a payload).1 ≡ ok n
      → (n ≡ length payload)
        × (1 ≤ length payload)
        × (length payload ≤ a.frame_cap)
        × (laws.sent (write write_adapter a payload).0.adapter
            ≡ laws.sent a.adapter ++ (put_be 2 (length payload) ++ payload))
  write-sends a payload {n} fits e =
      let (own, some_byte, below, first, second, end) = write_payload a payload {n = n} e in
      let header : Bytes = put_be 2 (length payload % 2 ^ 16) in
      let same : length payload % 2 ^ 16 ≡ length payload = omega arith in
      let w : W = (write_full write_adapter 2 a.adapter header).0 in
      let sent_header : laws.sent w ≡ laws.sent a.adapter ++ header =
        Wrote-all a.adapter header (write_full write_adapter 2 a.adapter header)
          (write_full-Wrote 2 a.adapter header
            (omega (arith, length-put_be 2 (length payload % 2 ^ 16))))
          first in
      let sent_payload : laws.sent (write_full write_adapter (length payload) w payload).0
          ≡ laws.sent w ++ payload =
        Wrote-all w payload (write_full write_adapter (length payload) w payload)
          (write_full-Wrote (length payload) w payload (omega arith)) second in
      (
        own,
        some_byte,
        below,
        ap laws.sent end
            ∙ (sent_payload
                ∙ (ap (λ (x : Bytes). x ++ payload) sent_header
                    ∙ (append_assoc (laws.sent a.adapter) header payload
                        ∙ ap (λ (k : ℕ). laws.sent a.adapter ++ (put_be 2 k ++ payload)) same))),
      )
