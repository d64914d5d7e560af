-- ===== src/Base/Bits.antt =====
-- Bits of machine words. Bit `k` of a word is found by halving, and each operation of the code
-- (`&` with one bit, `|`, `<<` cut off at a width, `>>`) is described by the bits of its result.
use Prim.Native.Nat.{
  ℕ, zero, suc, ◌+◌, ◌*◌, ◌/◌, ◌%◌, ◌^◌, ◌≤◌, ◌<◌, min, max, bit_and, bit_or, digits, bitwise,
  bit_and-bitwise, bit_or-bitwise,
}
use mathlib.Core.Path.{◌≡◌, refl, sym, ap, ◌∙◌}
use native.Mathlib.Nat.{
  pow-suc, pow-succ', one-le-pow, mul-one, div-one, zero-add, suc-add, div-div-eq-div-mul,
  div-add-mod', mod-lt, mod-eq_of_lt, mul-add-mod_self_right,
}
use tun_go.Base.Tests.{◌==◌, if◌then◌else◌}
use native.Mathlib.Omega.{arith}

unfoldable pub digit : ℕ → ℕ → ℕ
digit w zero = w % 2
digit w (suc k) = digit (w / 2) k

-- The fuel of the library's digit recursion does not matter.
module _ (z : ℕ → ℕ) (f : ℕ → ℕ → ℕ) where
  enough : (n m a b : ℕ) → a ≤ n → a ≤ m → digits z f n a b ≡ digits z f m a b
  enough zero zero a b p q = refl
  enough zero (suc m) zero b p q = refl
  enough zero (suc m) (suc a) b p q = absurd (omega arith)
  enough (suc n) zero zero b p q = refl
  enough (suc n) zero (suc a) b p q = absurd (omega arith)
  enough (suc n) (suc m) zero b p q = refl
  enough (suc n) (suc m) (suc a) b p q =
      rw (enough n m (suc a / 2) (b / 2) (omega arith) (omega arith))

  bitwise_halves :
      (a b : ℕ)
      → bitwise z f (suc a) b ≡ bitwise z f (suc a / 2) (b / 2) * 2 + f (suc a % 2) (b % 2)
  bitwise_halves a b =
      omega (arith, enough a (suc a / 2) (suc a / 2) (b / 2) (omega arith) (omega arith))

or_halves : (a b : ℕ) → bit_or a b ≡ bit_or (a / 2) (b / 2) * 2 + max (a % 2) (b % 2)
or_halves zero b = simp bit_or-bitwise (omega arith)
or_halves (suc a) b = simp bit_or-bitwise (bitwise_halves (λ y. y) max a b)

and_halves : (a b : ℕ) → bit_and a b ≡ bit_and (a / 2) (b / 2) * 2 + min (a % 2) (b % 2)
and_halves zero b = simp bit_and-bitwise (omega arith)
and_halves (suc a) b = simp bit_and-bitwise (bitwise_halves (λ y. 0) min a b)

pub digit-le-one : (k w : ℕ) → digit w k ≤ 1
unfolding digit
digit-le-one zero w = omega arith
digit-le-one (suc k) w = digit-le-one k (w / 2)

-- `a | b` has the bits of both.
pub digit-bit_or : (k a b : ℕ) → digit (bit_or a b) k ≡ max (digit a k) (digit b k)
unfolding digit
digit-bit_or zero a b = omega (arith, or_halves a b)
digit-bit_or (suc k) a b = ap (λ (w : ℕ). digit w k) halved ∙ digit-bit_or k (a / 2) (b / 2)
  where
    halved : bit_or a b / 2 ≡ bit_or (a / 2) (b / 2)
    halved = omega (arith, or_halves a b)

and_zero : (n a : ℕ) → a ≤ n → bit_and a 0 ≡ 0
and_zero n zero h = omega (arith, and_halves 0 0)
and_zero zero (suc a) h = absurd (omega arith)
and_zero (suc n) (suc a) h =
    omega (arith, and_halves (suc a) 0, and_zero n (suc a / 2) (omega arith))

two_pow_suc : (x k : ℕ) → x * 2 ^ suc k ≡ 2 * (x * 2 ^ k)
two_pow_suc x k = omega (arith, ap (λ (t : ℕ). x * t) (pow-suc 2 k))

-- `w & (1 << k)` is that bit in its place.
pub bit_and_pow : (k w : ℕ) → bit_and w (2 ^ k) ≡ digit w k * 2 ^ k
unfolding digit
bit_and_pow zero w = omega (arith, and_halves w 1, and_zero (w / 2) (w / 2) (omega arith))
bit_and_pow (suc k) w =
    and_halves w (2 ^ suc k)
    ∙ (ap (λ (t : ℕ). bit_and (w / 2) t * 2 + min (w % 2) (2 ^ suc k % 2)) half
        ∙ omega (arith, pow-suc 2 k, bit_and_pow k (w / 2), two_pow_suc (digit (w / 2) k) k))
  where
    half : 2 ^ suc k / 2 ≡ 2 ^ k
    half = omega (arith, pow-suc 2 k)

pub zero-digit : (k : ℕ) → digit 0 k ≡ 0
unfolding digit
zero-digit zero = refl
zero-digit (suc k) = zero-digit k

-- Nothing stands above the width of a word.
pub digit_above : (m w k : ℕ) → w < 2 ^ m → m ≤ k → digit w k ≡ 0
unfolding digit
digit_above zero w k h p = ap (λ (v : ℕ). digit v k) (omega arith) ∙ zero-digit k
digit_above (suc m) w zero h p = absurd (omega arith)
digit_above (suc m) w (suc k) h p =
    digit_above m (w / 2) k (omega (arith, pow-suc 2 m)) (omega arith)

-- `w << s` before the cut.
pub digit-shl_below : (s w k : ℕ) → k < s → digit (w * 2 ^ s) k ≡ 0
unfolding digit
digit-shl_below zero w k h = absurd (omega arith)
digit-shl_below (suc s) w zero h = omega (arith, two_pow_suc w s)
digit-shl_below (suc s) w (suc k) h =
    ap (λ (v : ℕ). digit v k) half ∙ digit-shl_below s w k (omega arith)
  where
    half : w * 2 ^ suc s / 2 ≡ w * 2 ^ s
    half = omega (arith, two_pow_suc w s)

pub digit-shl : (s w k : ℕ) → digit (w * 2 ^ s) (s + k) ≡ digit w k
unfolding digit
digit-shl zero w k = ground (arith, ap (λ (v : ℕ). digit v (0 + k)) (mul-one w), zero-add k)
digit-shl (suc s) w k =
    ap (λ (j : ℕ). digit (w * 2 ^ suc s) j) (suc-add s k)
    ∙ (ap (λ (v : ℕ). digit v (s + k)) half ∙ digit-shl s w k)
  where
    half : w * 2 ^ suc s / 2 ≡ w * 2 ^ s
    half = omega (arith, two_pow_suc w s)

-- `w >> s`.
pub digit-shr : (s w k : ℕ) → digit (w / 2 ^ s) k ≡ digit w (s + k)
unfolding digit
digit-shr zero w k = ground (arith, ap (λ (v : ℕ). digit v k) (div-one w), zero-add k)
digit-shr (suc s) w k =
    ap (λ (v : ℕ). digit v k) split
    ∙ (digit-shr s (w / 2) k ∙ ap (λ (j : ℕ). digit w j) (sym (suc-add s k)))
  where
    split : w / 2 ^ suc s ≡ w / 2 / 2 ^ s
    split = ap (λ (t : ℕ). w / t) (pow-succ' 2 s) ∙ sym (div-div-eq-div-mul w 2 (2 ^ s))

half_mod : (m w : ℕ) → w % 2 ^ suc m / 2 ≡ w / 2 % 2 ^ m
half_mod m w = sym (
    ap (λ (t : ℕ). t % 2 ^ m) split
    ∙ (mul-add-mod_self_right (w / 2 ^ suc m) (2 ^ m) (w % 2 ^ suc m / 2) ∙ mod-eq_of_lt small))
  where
    split : w / 2 ≡ w / 2 ^ suc m * 2 ^ m + w % 2 ^ suc m / 2
    split = omega (arith, div-add-mod' w (2 ^ suc m), two_pow_suc (w / 2 ^ suc m) m)

    small : w % 2 ^ suc m / 2 < 2 ^ m
    small =
        omega (arith, pow-suc 2 m, mod-lt w {m = 2 ^ suc m} (one-le-pow (suc m) 2 (omega arith)))

-- The cut of a word at `m` bits keeps what stands below.
pub digit-mod : (m w k : ℕ) → k < m → digit (w % 2 ^ m) k ≡ digit w k
unfolding digit
digit-mod zero w k h = absurd (omega arith)
digit-mod (suc m) w zero h =
    omega (arith, div-add-mod' w (2 ^ suc m), two_pow_suc (w / 2 ^ suc m) m)
digit-mod (suc m) w (suc k) h = ap (λ (v : ℕ). digit v k) half ∙ digit-mod m (w / 2) k (omega arith)
  where
    half : w % 2 ^ suc m / 2 ≡ w / 2 % 2 ^ m
    half = half_mod m w

-- `1 << k` has one bit.
pub digit_pow : (k j : ℕ) → digit (2 ^ k) j ≡ (if k == j then 1 else 0)
unfolding digit
digit_pow zero zero = refl
digit_pow zero (suc j) = ground (arith, zero-digit j)
digit_pow (suc k) zero = ground (arith, pow-suc 2 k)
digit_pow (suc k) (suc j) =
    ap (λ (v : ℕ). digit v j) (omega (arith, pow-suc 2 k)) ∙ (digit_pow k j ∙ ground arith)

below_one : (a b : ℕ) → a < 1 → b < 1 → bit_or a b < 1
below_one zero zero p q = omega arith
below_one zero (suc b) p q = absurd (omega arith)
below_one (suc a) b p q = absurd (omega arith)

pub bit_or-lt : (m a b : ℕ) → a < 2 ^ m → b < 2 ^ m → bit_or a b < 2 ^ m
bit_or-lt zero a b p q = below_one a b (omega arith) (omega arith)
bit_or-lt (suc m) a b p q = omega (
  arith,
  or_halves a b,
  pow-suc 2 m,
  bit_or-lt m (a / 2) (b / 2) (omega (arith, pow-suc 2 m)) (omega (arith, pow-suc 2 m)),
)
