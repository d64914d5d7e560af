-- ===== src/Base/Branches.antt =====
-- A property of every branch of a test, of an optional value or of a result is one of what it comes to.
use tun_go.Base.{
  ◌≡◌, refl, Bool, true, false, Option, none, some, Result, ok, err, Error, if◌then◌else◌,
}

-- A predicate on both branches, or on all results, holds of what the branch comes to.
pub if_all : {X : Type 0} (P : X → Type 0) (b : Bool) (x y : X) → P x → P y → P (if b then x else y)
if_all P true x y v w = v
if_all P false x y v w = w

module _ {A X : Type 0} where
  abbrev pub either : Result A → (Error → X) → (A → X) → X
  either r f g = elim r [ err e ↦ f e | ok a ↦ g a ]

  pub Result_all :
      (P : X → Type 0) (r : Result A) (f : Error → X) (g : A → X)
      → ((e : Error) → P (f e))
      → ((a : A) → P (g a))
      → P (either r f g)
  Result_all P (err e) f g v w = v e
  Result_all P (ok a) f g v w = w a

  abbrev pub maybe : Option A → X → (A → X) → X
  maybe o x g = elim o [ none ↦ x | some a ↦ g a ]

  pub Option_all :
      (P : X → Type 0) (o : Option A) (x : X) (g : A → X)
      → P x
      → ((a : A) → o ≡ some a → P (g a))
      → P (maybe o x g)
  Option_all P none x g v w = v
  Option_all P (some a) x g v w = w a refl
