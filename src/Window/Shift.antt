-- ===== src/Window/Shift.antt =====
-- `shiftBitmap` on the sixteen words is a shift of the 1024 bits.
use tun_go.Base.{
  ℕ, zero, suc, ◌+◌, ◌-◌, ◌*◌, ◌/◌, ◌%◌, ◌^◌, ◌≤◌, ◌<◌, ◌≡◌, ap, ap₂, ◌∙◌, List, ltb, leb,
  if◌then◌else◌, Bool-cases, inl, inr, get_or, replicate, get_or-replicate, bit_or, arith, dec_lt,
}
use tun_go.Base.Bits.{
  digit, digit-bit_or, digit-mod, digit-shl, digit-shl_below, digit-shr, digit_above, zero-digit,
}
use tun_go.Window.{shift_bitmap, move_words, shift_words, shl64, shr64}
use tun_go.Window.Words.{
  IsBitmap, Fits, word-Fits, move_words-IsBitmap, move_words_lem, shift_words-IsBitmap,
  shift_words_lem, shifted_word,
}

-- Bit `p` of the whole bitmap.
abbrev pub bit_at : List ℕ → ℕ → ℕ
bit_at b p = digit (get_or b (p / 64) 0) (p % 64)

digit-shl64 : (s k w : ℕ) → k < 64 → digit (shl64 w s) k ≡ (if ltb k s then 0 else digit w (k - s))
digit-shl64 s k w h = elim (dec_lt k s) [
  | yes q ↦ ground (arith, digit-mod 64 (w * 2 ^ s) k, digit-shl_below s w k)
  | no q ↦ ground (
    arith,
    digit-mod 64 (w * 2 ^ s) k,
    digit-shl s w (k - s),
    ap (λ (j : ℕ). digit (w * 2 ^ s) j) (back s k (omega arith)),
  )
]
  where
    back : (s k : ℕ) → s ≤ k → s + (k - s) ≡ k
    back s k p = omega arith

pair_digit :
    (s k hi lo : ℕ)
    → s < 64
    → k < 64
    → Fits lo
    → digit (bit_or (shl64 hi s) (shr64 lo (64 - s))) k
      ≡ (if ltb k s then digit lo (64 - s + k) else digit hi (k - s))
pair_digit s k hi lo hs hk fits = ground (
  arith,
  digit-bit_or k (shl64 hi s) (shr64 lo (64 - s)),
  digit-shl64 s k hi hk,
  digit-shr (64 - s) lo k,
  digit_above 64 lo (64 - s + k),
)

bit_at-eq : (b : List ℕ) (p j k : ℕ) → p / 64 ≡ j → p % 64 ≡ k → bit_at b p ≡ digit (get_or b j 0) k
bit_at-eq b p j k d m = ap₂ (λ i r. digit (get_or b i 0) r) d m

digit-shifted_word :
    (s j k : ℕ) (b : List ℕ)
    → s < 64
    → k < 64
    → IsBitmap b
    → digit (shifted_word s b j) k ≡ (if ltb (64 * j + k) s then 0 else bit_at b (64 * j + k - s))
digit-shifted_word s zero k b hs hk v =
    ground (arith, digit-shl64 s k (get_or b 0 0), bit_at-eq b (64 * 0 + k - s) 0 (k - s))
digit-shifted_word s (suc j) k b hs hk v = ground (
  arith,
  pair_digit s k (get_or b (suc j) 0) (get_or b j 0) hs hk (word-Fits b j v),
  bit_at-eq b (64 * suc j + k - s) (suc j) (k - s),
  bit_at-eq b (64 * suc j + k - s) j (64 - s + k),
)

shift_words_bits :
    (s p : ℕ) (b : List ℕ)
    → s < 64
    → p < 1024
    → IsBitmap b
    → bit_at (shift_words s 15 b) p ≡ (if ltb p s then 0 else bit_at b (p - s))
shift_words_bits s p b hs hp v = ground (
  arith,
  ap (λ (w : ℕ). digit w (p % 64))
      (shift_words_lem s 15 (p / 64) b (omega (arith, v.words)) (omega arith)),
  digit-shifted_word s (p / 64) (p % 64) b hs (omega arith) v,
  ap (λ (q : ℕ). bit_at b (q - s)) (whole p),
)
  where
    whole : (p : ℕ) → 64 * (p / 64) + p % 64 ≡ p
    whole p = omega arith

move_words_bits :
    (n p : ℕ) (b : List ℕ)
    → n < 16
    → p < 1024
    → IsBitmap b
    → bit_at (move_words n b) p ≡ (if ltb p (64 * n) then 0 else bit_at b (p - 64 * n))
move_words_bits n p b hn hp v = ground (
  arith,
  ap (λ (w : ℕ). digit w (p % 64)) (move_words_lem n (p / 64) b hn (omega arith) v),
  zero-digit (p % 64),
  bit_at-eq b (p - 64 * n) (p / 64 - n) (p % 64),
)

two_steps : (n p : ℕ) → p - n % 64 - 64 * (n / 64) ≡ p - n
two_steps n p = omega arith

whole_words : (n : ℕ) → n % 64 ≡ 0 → 64 * (n / 64) ≡ n
whole_words n h = omega arith

pub zeros-IsBitmap : IsBitmap (replicate 16 0)
zeros-IsBitmap = omega arith

pub shift_bitmap-IsBitmap : (b : List ℕ) (n : ℕ) → IsBitmap b → IsBitmap (shift_bitmap b n)
unfolding shift_bitmap
shift_bitmap-IsBitmap b n v = elim (Bool-cases (leb 1024 n)) [
  | inl e ↦ rw e zeros-IsBitmap
  | inr e ↦ rw e (elim (Bool-cases (ltb 0 (n % 64))) [
    | inl f ↦
        rw f (shift_words-IsBitmap (n % 64) 15 _ (move_words-IsBitmap (n / 64) b (ground arith) v))
    | inr f ↦ rw f (move_words-IsBitmap (n / 64) b (ground arith) v)
  ])
]

pub bit_at-zeros : (p : ℕ) → bit_at (replicate 16 0) p ≡ 0
bit_at-zeros p =
    ap (λ (w : ℕ). digit w (p % 64)) (get_or-replicate 16 (p / 64) 0) ∙ zero-digit (p % 64)

-- On sixteen 64-bit words, shiftBitmap by any distance moves bit p - n to bit p and clears the n
-- lowest bits, for each of the 1024 bits.
pub bit_at-shift_bitmap :
    (b : List ℕ) (n p : ℕ)
    → IsBitmap b
    → p < 1024
    → bit_at (shift_bitmap b n) p ≡ (if ltb p n then 0 else bit_at b (p - n))
unfolding shift_bitmap
bit_at-shift_bitmap b n p v h = elim (Bool-cases (leb 1024 n)) [
  | inl e ↦ rw e (ground (arith, bit_at-zeros p))
  | inr e ↦
      let small : n / 64 < 16 = ground arith in
      let moved : List ℕ = move_words (n / 64) b in
      rw e (elim (Bool-cases (ltb 0 (n % 64))) [
        | inl f ↦ rw f (
            ground (
              arith,
              shift_words_bits (n % 64) p moved (omega arith) h
                  (move_words-IsBitmap (n / 64) b small v),
              move_words_bits (n / 64) (p - n % 64) b small (omega arith) v,
              ap (λ (q : ℕ). bit_at b q) (two_steps n p),
            ))
        | inr f ↦ rw f (
            ground (
              arith,
              move_words_bits (n / 64) p b small h v,
              ap (λ (q : ℕ). bit_at b (p - q)) (whole_words n (ground arith)),
            ))
      ])
]
