-- ===== src/Base/Copy.antt =====
-- Go's `copy` into a slice of a buffer.
use Prim.Native.Nat.{◌≤◌, ℕ, zero, suc, ◌+◌}
use mathlib.Core.Path.{◌≡◌, refl, ap}
use mathlib.Core.List.{List, [], ◌∷◌, ◌++◌}
use native.Mathlib.Omega.{arith}
use tun_go.Base.Lists.{length, take}

module _ {ℓ} {A : Type ℓ} where
  -- `copy(dst, src)`: as many elements as both have.
  unfoldable pub overlay : List A → List A → List A
  overlay [] dst = dst
  overlay (s ∷ src) [] = []
  overlay (s ∷ src) (d ∷ dst) = s ∷ overlay src dst

  -- `copy(dst[off:], src)`, the whole buffer after it.
  unfoldable pub copy_at : ℕ → List A → List A → List A
  unfolding overlay
  copy_at zero src dst = overlay src dst
  copy_at (suc off) src [] = []
  copy_at (suc off) src (d ∷ dst) = d ∷ copy_at off src dst

  pub length-overlay : (src dst : List A) → length (overlay src dst) ≡ length dst
  unfolding overlay
  length-overlay [] dst = refl
  length-overlay (s ∷ src) [] = refl
  length-overlay (s ∷ src) (d ∷ dst) = ap suc (length-overlay src dst)

  pub length-copy_at : (off : ℕ) (src dst : List A) → length (copy_at off src dst) ≡ length dst
  unfolding copy_at
  length-copy_at zero src dst = length-overlay src dst
  length-copy_at (suc off) src [] = refl
  length-copy_at (suc off) src (d ∷ dst) = ap suc (length-copy_at off src dst)

  overlay_all : (src dst : List A) → length src ≡ length dst → overlay src dst ≡ src
  unfolding overlay
  overlay_all [] [] e = refl
  overlay_all [] (d ∷ dst) e = absurd (omega arith)
  overlay_all (s ∷ src) [] e = absurd (omega arith)
  overlay_all (s ∷ src) (d ∷ dst) e = ap (◌∷◌ s) (overlay_all src dst (omega arith))

  -- A copy that fills the buffer from `off` to its end.
  pub copy_at-fills :
      (off : ℕ) (src dst : List A)
      → off + length src ≡ length dst
      → copy_at off src dst ≡ take off dst ++ src
  unfolding copy_at
  copy_at-fills zero src dst e = overlay_all src dst (omega arith)
  copy_at-fills (suc off) src [] e = absurd (omega arith)
  copy_at-fills (suc off) src (d ∷ dst) e = ap (◌∷◌ d) (copy_at-fills off src dst (omega arith))

  -- What stands before the copied part stays.
  pub take-copy_at : (off : ℕ) (src dst : List A) → take off (copy_at off src dst) ≡ take off dst
  unfolding copy_at
  take-copy_at zero src dst = refl
  take-copy_at (suc off) src [] = refl
  take-copy_at (suc off) src (d ∷ dst) = ap (◌∷◌ d) (take-copy_at off src dst)

  -- What is copied to the front is found there.
  pub take_copied :
      (src dst : List A) → length src ≤ length dst → take (length src) (copy_at 0 src dst) ≡ src
  unfolding copy_at overlay
  take_copied [] dst room = refl
  take_copied (x ∷ src) [] room = absurd (omega arith)
  take_copied (x ∷ src) (y ∷ dst) room = ap (◌∷◌ x) (take_copied src dst (omega arith))
