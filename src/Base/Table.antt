-- ===== src/Base/Table.antt =====
-- Go's `map`: an association list with at most one value for a key, whatever the order. The keys'
-- equality is an instance.
use tun_go.Base.Tests.{◌==◌, ==_iff, if◌then◌else◌}
use Prim.Native.Nat.{ℕ, ◌≤◌}
use mathlib.Core.Path.{◌≡◌, refl}
use mathlib.Core.Logic.{◌↔◌}
use mathlib.Core.Bool.{Bool, true}
use mathlib.Core.Option.{Option, none, some}
use mathlib.Core.List.{List, [], ◌∷◌}
use native.Mathlib.Omega.{arith}
use tun_go.Base.Lists.{length}

pub record Eq {ℓ} (K : Type ℓ) : Type ℓ where
  pub beq : K → K → Bool
  pub beq_iff : (a b : K) → (beq a b ≡ true) ↔ (a ≡ b)

instance abbrev pub nat_eq : Eq ℕ
nat_eq = record { beq = ◌==◌; beq_iff = ==_iff }

abbrev pub Table {ℓ} : Type ℓ → Type ℓ → Type ℓ
Table K V = List (K × V)

module _ {ℓ κ} {K : Type ℓ} ⦃e : Eq K⦄ where
  pub beq_self : (k : K) → e.beq k k ≡ true
  beq_self k = (e.beq_iff k k).1 refl

module _ {ℓ} {K V : Type ℓ} ⦃e : Eq K⦄ where
  -- `v, ok := m[k]`
  unfoldable pub find : K → Table K V → Option V
  find k [] = none
  find k ((j, v) ∷ m) = if e.beq j k then some v else find k m

  -- `delete(m, k)`
  unfoldable pub delete : K → Table K V → Table K V
  delete k [] = []
  delete k ((j, v) ∷ m) = if e.beq j k then delete k m else (j, v) ∷ delete k m

  -- `m[k] = v`
  unfoldable pub put : K → V → Table K V → Table K V
  put k v m = (k, v) ∷ delete k m

  pub find-delete :
      (k q : K) (m : Table K V) → find q (delete k m) ≡ (if e.beq k q then none else find q m)
  unfolding find delete
  find-delete k q [] = ground arith
  find-delete k q ((j, v) ∷ m) =
      ground (arith, find-delete k q m, e.beq_iff j k, e.beq_iff j q, e.beq_iff k q)

  pub find-put :
      (k q : K) (v : V) (m : Table K V)
      → find q (put k v m) ≡ (if e.beq k q then some v else find q m)
  unfolding find put
  find-put k q v m = ground (arith, find-delete k q m)

  pub length-delete-le : (k : K) (m : Table K V) → length (delete k m) ≤ length m
  unfolding delete
  length-delete-le k [] = omega arith
  length-delete-le k ((j, v) ∷ m) = ground (arith, length-delete-le k m)

module _ {ℓ} {K A : Type ℓ} ⦃e : Eq K⦄ where
  -- `m[k]` of a map of slices: the empty slice where the key is missing.
  unfoldable pub find_all : K → Table K (List A) → List A
  find_all k m = elim (find k m) [ none ↦ [] | some xs ↦ xs ]

  pub find_all-put :
      (k q : K) (xs : List A) (m : Table K (List A))
      → find_all q (put k xs m) ≡ (if e.beq k q then xs else find_all q m)
  unfolding find_all
  find_all-put k q xs m = ground (arith, find-put k q xs m)

  pub find_all-delete :
      (k q : K) (m : Table K (List A))
      → find_all q (delete k m) ≡ (if e.beq k q then [] else find_all q m)
  unfolding find_all
  find_all-delete k q m = ground (arith, find-delete k q m)
