-- ===== src/Window/Replay.antt =====
-- One replay window against the list of nonces that it has accepted.
use tun_go.Base.{
  ℕ, ◌+◌, ◌-◌, ◌/◌, ◌%◌, ◌^◌, ◌≤◌, ◌<◌, ◌≡◌, refl, sym, ap, ◌∙◌, List, [], ◌∷◌, Bool, false, ◌&&◌,
  ◌||◌, not, ltb, ◌==◌, if◌then◌else◌, Bool-cases, inl, inr, get_or, set, get_or-set_self,
  get_or-set_ne, bit_or, bit_and, max, min, arith, dec_lt, ℕ_discrete, ok, err, non_unique_nonce,
}
use native.Mathlib.Nat.{one-le-pow, pow-le-pow_right}
use tun_go.Base.Bits.{digit, digit-bit_or, digit_pow, digit-le-one, bit_and_pow, bit_or-lt}
use tun_go.Window.{SlidingWindowEntry, check_win, accept_win, fresh_win, shift_bitmap, window_bits}
use tun_go.Window.Words.{IsBitmap, Fits, word-Fits, set-IsBitmap}
use tun_go.Window.Shift.{
  bit_at, bit_at-zeros, zeros-IsBitmap, shift_bitmap-IsBitmap, bit_at-shift_bitmap,
}

-- The specification: a list of the accepted nonces, the newest value first or not.
unfoldable pub contains : ℕ → List ℕ → Bool
contains n [] = false
contains n (m ∷ ms) = n == m || contains n ms

unfoldable pub newest : List ℕ → ℕ
newest [] = 0
newest (m ∷ ms) = max m (newest ms)

-- A nonce is admissible if it was not accepted before and is not 1024 or more behind the newest.
unfoldable pub admissible : List ℕ → ℕ → Bool
unfolding contains newest
admissible h low = ltb (newest h) (low + window_bits) && not (contains low h)

-- Setting one bit of the bitmap, as both branches of `Accept` do.
bit_at-set :
    (b : List ℕ) (q p : ℕ)
    → q < 1024
    → IsBitmap b
    → bit_at (set b (q / 64) (bit_or (get_or b (q / 64) 0) (2 ^ (q % 64)))) p
      ≡ (if q == p then 1 else bit_at b p)
bit_at-set b q p h v = elim (ℕ_discrete (q / 64) (p / 64)) [
  | yes e ↦
      ap (λ (w : ℕ). digit w (p % 64))
        (ap (λ (j : ℕ). get_or (set b (q / 64) word) j 0) (sym e)
          ∙ get_or-set_self b (q / 64) word 0 (omega (arith, v.words)))
      ∙ ground (
        arith,
        digit-bit_or (p % 64) (get_or b (q / 64) 0) (2 ^ (q % 64)),
        digit_pow (q % 64) (p % 64),
        digit-le-one (p % 64) (get_or b (p / 64) 0),
        ap (λ (j : ℕ). digit (get_or b j 0) (p % 64)) e,
      )
  | no n ↦
      ap (λ (w : ℕ). digit w (p % 64)) (get_or-set_ne b (q / 64) (p / 64) word 0 n) ∙ ground arith
]
  where
    word : ℕ
    word = bit_or (get_or b (q / 64) 0) (2 ^ (q % 64))

bit-Fits : (k : ℕ) → k < 64 → Fits (2 ^ k)
bit-Fits k h = omega (arith, pow-le-pow_right {n = 2} (omega arith) {i = k} {j = 63} (omega arith))

set_bit-IsBitmap :
    (b : List ℕ) (q : ℕ)
    → IsBitmap b
    → IsBitmap (set b (q / 64) (bit_or (get_or b (q / 64) 0) (2 ^ (q % 64))))
set_bit-IsBitmap b q v =
    set-IsBitmap b (q / 64) _
      (bit_or-lt 64 _ _ (word-Fits b (q / 64) v) (bit-Fits (q % 64) (omega arith))) v

-- The bit test of `Check`.
test_bit :
    (b : List ℕ) (d : ℕ) → (bit_and (get_or b (d / 64) 0) (2 ^ (d % 64)) == 0) ≡ (bit_at b d == 0)
test_bit b d = grind (
  arith,
  bit_and_pow (d % 64) (get_or b (d / 64) 0),
  digit-le-one (d % 64) (get_or b (d / 64) 0),
  one-le-pow (d % 64) 2,
)

abbrev pub mark : Bool → ℕ
mark b = if b then 1 else 0

-- The window holds the accepted nonces `h`.
pub record Repr (w : SlidingWindowEntry) (h : List ℕ) : Type 0 where
  pub bitmap : IsBitmap w.bitmap
  pub newest_is : w.max ≡ newest h
  pub seen : (d : ℕ) → d < 1024 → d ≤ w.max → bit_at w.bitmap d ≡ mark (contains (w.max - d) h)

pub fresh_win-Repr : (high : ℕ) → Repr (fresh_win high) []
unfolding newest contains
fresh_win-Repr high = record {
  bitmap = zeros-IsBitmap;
  newest_is = refl;
  seen = λ d _ _. bit_at-zeros d;
}

above_newest : (n : ℕ) (h : List ℕ) → newest h < n → contains n h ≡ false
unfolding newest contains
above_newest n [] p = refl
above_newest n (m ∷ ms) p = ground (arith, above_newest n ms)

-- `Check` decides admissibility.
pub check_win-Repr :
    (w : SlidingWindowEntry) (h : List ℕ) (low : ℕ)
    → Repr w h
    → check_win w low ≡ (if admissible h low then ok tt else err non_unique_nonce)
unfolding check_win admissible
check_win-Repr w h low r = ground (
  arith,
  r.newest_is,
  above_newest low h,
  test_bit w.bitmap (w.max - low),
  r.seen (w.max - low),
  ap (λ (n : ℕ). contains n h) (there_and_back w.max low),
)
  where
    there_and_back : (m low : ℕ) → m - (m - low) ≡ min m low
    there_and_back m low = omega arith

same_nonce :
    (m low d : ℕ) (h : List ℕ)
    → m < low
    → low - m ≤ d
    → contains (m - (d - (low - m))) h ≡ contains (low - d) h
same_nonce m low d h p q = ap (λ (n : ℕ). contains n h) (omega arith)

-- The bits after `Accept` of a newest nonce.
accept_newer_bit :
    (w : SlidingWindowEntry) (h : List ℕ) (low d : ℕ)
    → Repr w h
    → w.max < low
    → d < 1024
    → d ≤ low
    → bit_at (accept_win w low).bitmap d ≡ mark (contains (low - d) (low ∷ h))
unfolding accept_win contains
accept_newer_bit w h low d r newer hd hl = ground (
  arith,
  bit_at-set shifted 0 d (omega arith) (shift_bitmap-IsBitmap w.bitmap (low - w.max) r.bitmap),
  bit_at-shift_bitmap w.bitmap (low - w.max) d r.bitmap hd,
  r.newest_is,
  above_newest (low - d) h,
  r.seen (d - (low - w.max)),
  same_nonce w.max low d h,
)
  where
    shifted : List ℕ
    shifted = shift_bitmap w.bitmap (low - w.max)

accept_older_bit :
    (w : SlidingWindowEntry) (h : List ℕ) (low d : ℕ)
    → Repr w h
    → low ≤ w.max
    → d < 1024
    → d ≤ w.max
    → bit_at (accept_win w low).bitmap d ≡ mark (contains (w.max - d) (low ∷ h))
unfolding accept_win contains
accept_older_bit w h low d r older hd hm =
    ground (arith, bit_at-set w.bitmap (w.max - low) d, r.bitmap, r.seen d hd hm)

accept_win-IsBitmap :
    (w : SlidingWindowEntry) (low : ℕ) → IsBitmap w.bitmap → IsBitmap (accept_win w low).bitmap
unfolding accept_win
accept_win-IsBitmap w low v = elim (Bool-cases (ltb w.max low)) [
  | inl e ↦ rw e (set_bit-IsBitmap shifted 0 (shift_bitmap-IsBitmap w.bitmap (low - w.max) v))
  | inr e ↦ rw e (elim (Bool-cases (ltb (w.max - low) 1024)) [
    | inl f ↦ rw f (set_bit-IsBitmap w.bitmap (w.max - low) v)
    | inr f ↦ rw f v
  ])
]
  where
    shifted : List ℕ
    shifted = shift_bitmap w.bitmap (low - w.max)

accept_win_max : (w : SlidingWindowEntry) (low : ℕ) → (accept_win w low).max ≡ max w.max low
unfolding accept_win
accept_win_max w low = ground arith

-- `Accept` adds the nonce to what the window holds.
pub accept_win-Repr :
    (w : SlidingWindowEntry) (h : List ℕ) (low : ℕ) → Repr w h → Repr (accept_win w low) (low ∷ h)
accept_win-Repr w h low r = record {
  bitmap = accept_win-IsBitmap w low r.bitmap;
  newest_is = unfold newest in omega (arith, accept_win_max w low, r.newest_is);
  seen = λ d hd hm. elim (dec_lt w.max low) [
    | yes newer ↦
        accept_newer_bit w h low d r newer hd (omega (arith, accept_win_max w low))
        ∙ again d low (omega (arith, accept_win_max w low))
    | no older ↦
        accept_older_bit w h low d r (omega arith) hd (omega (arith, accept_win_max w low))
        ∙ again d w.max (omega (arith, accept_win_max w low))
  ];
}
  where
    again :
        (d m : ℕ)
        → m ≡ (accept_win w low).max
        → mark (contains (m - d) (low ∷ h)) ≡ mark (contains ((accept_win w low).max - d) (low ∷ h))
    again d m e = ap (λ (n : ℕ). mark (contains (n - d) (low ∷ h))) e
