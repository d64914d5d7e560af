-- ===== src/Base/BigEndian.antt =====
-- Byte slices as lists of numbers, and encoding/binary's big-endian integers.
use Prim.Native.Nat.{ℕ, zero, suc, ◌+◌, ◌*◌, ◌/◌, ◌%◌, ◌^◌, ◌<◌}
use mathlib.Core.Path.{◌≡◌, refl, ap, ◌∙◌}
use mathlib.Core.List.{List, [], ◌∷◌}
use native.Mathlib.Nat.{
  pow-suc, one-le-pow, mod-lt, mod-eq_of_lt, div-add-mod', mul-add-mod_self_right,
}
use native.Mathlib.Omega.{arith}
use tun_go.Base.Lists.{length}

abbrev pub Bytes : Type 0
Bytes = List ℕ

abbrev pub All {ℓ κ} : {A : Type ℓ} → (A → Type κ) → List A → Type κ
All P [] = Unit
All P (x ∷ xs) = P x × All P xs

abbrev pub IsBytes : Bytes → Type 0
IsBytes = All (λ b. b < 256)

-- `binary.BigEndian.PutUint{16,32,64}` for `n` = 2, 4, 8: the bytes written.
unfoldable pub put_be : ℕ → ℕ → Bytes
put_be zero v = []
put_be (suc n) v = v / 256 ^ n % 256 ∷ put_be n v

unfoldable pub be_from : ℕ → Bytes → ℕ
be_from acc [] = acc
be_from acc (b ∷ bs) = be_from (acc * 256 + b) bs

-- `binary.BigEndian.Uint{16,32,64}` of exactly that many bytes.
unfoldable pub be : Bytes → ℕ
unfolding be_from
be bs = be_from 0 bs

pub length-put_be : (n v : ℕ) → length (put_be n v) ≡ n
unfolding put_be
length-put_be zero v = refl
length-put_be (suc n) v = ap suc (length-put_be n v)

pub put_be-IsBytes : (n v : ℕ) → IsBytes (put_be n v)
unfolding put_be
put_be-IsBytes zero v = tt
put_be-IsBytes (suc n) v = (omega arith, put_be-IsBytes n v)

-- Arithmetic of one more byte at the front.
front_byte : (n v : ℕ) → v % 256 ^ suc n ≡ v / 256 ^ n % 256 * 256 ^ n + v % 256 ^ n
front_byte n v =
    ap (λ (t : ℕ). t % 256 ^ suc n) split
    ∙ (mul-add-mod_self_right (v / 256 ^ n / 256) (256 ^ suc n) low ∙ mod-eq_of_lt small)
  where
    low : ℕ
    low = v / 256 ^ n % 256 * 256 ^ n + v % 256 ^ n

    split : v ≡ v / 256 ^ n / 256 * 256 ^ suc n + low
    split = omega (
      arith,
      div-add-mod' v (256 ^ n),
      ap (λ (t : ℕ). t * 256 ^ n) (div-add-mod' (v / 256 ^ n) 256),
      ap (λ (t : ℕ). v / 256 ^ n / 256 * t) (pow-suc 256 n),
    )

    small : low < 256 ^ suc n
    small = grind (arith, pow-suc 256 n, mod-lt v {m = 256 ^ n} (one-le-pow n 256 (omega arith)))

be_from-put_be : (n acc v : ℕ) → be_from acc (put_be n v) ≡ acc * 256 ^ n + v % 256 ^ n
unfolding be_from put_be
be_from-put_be zero acc v = omega arith
be_from-put_be (suc n) acc v =
    be_from-put_be n (acc * 256 + v / 256 ^ n % 256) v
    ∙ omega (arith, front_byte n v, ap (λ (t : ℕ). acc * t) (pow-suc 256 n))

-- Reading back what was written, up to the width.
pub be-put_be : (n v : ℕ) → v < 256 ^ n → be (put_be n v) ≡ v
unfolding be
be-put_be n v h = be_from-put_be n 0 v ∙ omega (arith, mod-eq_of_lt h)
