-- ===== src/Server/Repository/Tracking.antt =====
-- The slices of peers under a public key (repository.go): what an append, a removal by a swap and
-- the deletion of an empty slice do to how often a peer is listed.
use tun_go.Base.{
  ℕ, zero, suc, ◌+◌, ◌-◌, ◌<◌, ◌≡◌, ◌≢◌, refl, ap, List, [], ◌∷◌, ◌++◌, none, some, ◌==◌,
  if◌then◌else◌, Bytes, length, take, set, get_or, length-set, get_or-set_self, get_or-set_ne,
  ℕ_discrete, Option-cases, inl, inr, arith,
}
use tun_go.Base.Table.{Table, find_all, find_all-put, find_all-delete}
use tun_go.Ip.{same}
use tun_go.Ip.Prefix.{bytes_eq, same_iff}
use tun_go.Server.Repository.{index_of, swap_out, track, drop_empty, remove_tracked, untrack}

abbrev pub hit : ℕ → ℕ → ℕ
hit x p = if x == p then 1 else 0

-- How often `p` is listed.
abbrev pub count : ℕ → List ℕ → ℕ
count p [] = 0
count p (x ∷ xs) = hit x p + count p xs

pub count-snoc : (p q : ℕ) (xs : List ℕ) → count q (xs ++ p ∷ []) ≡ count q xs + hit p q
count-snoc p q [] = omega arith
count-snoc p q (x ∷ xs) = omega (arith, count-snoc p q xs)

count-set :
    (q : ℕ) (xs : List ℕ) (i v : ℕ)
    → i < length xs
    → count q (set xs i v) + hit (get_or xs i 0) q ≡ count q xs + hit v q
count-set q [] i v h = absurd (omega arith)
count-set q (x ∷ xs) zero v h = omega arith
count-set q (x ∷ xs) (suc i) v h = omega (arith, count-set q xs i v)

count-take_last :
    (q : ℕ) (xs : List ℕ) (k : ℕ)
    → length xs ≡ suc k
    → count q (take k xs) + hit (get_or xs k 0) q ≡ count q xs
count-take_last q [] k h = absurd (omega arith)
count-take_last q (x ∷ []) zero h = omega arith
count-take_last q (x ∷ y ∷ ys) zero h = absurd (omega arith)
count-take_last q (x ∷ xs) (suc k) h = omega (arith, count-take_last q xs k (omega arith))

index_of-some :
    (p : ℕ) (xs : List ℕ) (i : ℕ) → index_of p xs ≡ some i → (i < length xs) × (get_or xs i 0 ≡ p)
unfolding index_of
index_of-some p [] i h = absurd (cc)
index_of-some p (x ∷ xs) zero h = elim (Option-cases (index_of p xs)) [
  | inl e ↦ ground (arith, e)
  | inr (j, e) ↦ ground (arith, e)
]
index_of-some p (x ∷ xs) (suc i) h = elim (Option-cases (index_of p xs)) [
  | inl e ↦ ground (arith, e)
  | inr (j, e) ↦ ground (arith, e, index_of-some p xs i)
]

index_of-none : (p : ℕ) (xs : List ℕ) → index_of p xs ≡ none → count p xs ≡ 0
unfolding index_of
index_of-none p [] h = refl
index_of-none p (x ∷ xs) h = elim (Option-cases (index_of p xs)) [
  | inl e ↦ ground (arith, index_of-none p xs e)
  | inr (j, e) ↦ ground (arith, e)
]

get_or-set_copy :
    (xs : List ℕ) (i k : ℕ) → i < length xs → get_or (set xs i (get_or xs k 0)) k 0 ≡ get_or xs k 0
get_or-set_copy xs i k h = elim (ℕ_discrete i k) [
  | yes e ↦ rw (← e) (get_or-set_self xs i (get_or xs i 0) 0 h)
  | no n ↦ get_or-set_ne xs i k (get_or xs k 0) 0 n
]

count-swap_at :
    (q : ℕ) (xs : List ℕ) (i : ℕ)
    → i < length xs
    → count q (swap_out i xs) + hit (get_or xs i 0) q ≡ count q xs
unfolding swap_out
count-swap_at q xs i h = omega (
  arith,
  count-take_last q (set xs i last) (length xs - 1) (omega (arith, length-set xs i last)),
  count-set q xs i last h,
  ap (λ (t : ℕ). hit t q) (get_or-set_copy xs i (length xs - 1) h),
)
  where
    last : ℕ
    last = get_or xs (length xs - 1) 0

-- The swap takes one listing of the peer away and keeps every other.
pub count-swap_out :
    (p q : ℕ) (xs : List ℕ) (i : ℕ)
    → index_of p xs ≡ some i
    → count q (swap_out i xs) + hit p q ≡ count q xs
count-swap_out p q xs i h =
    let (inside, at) = index_of-some p xs i h in rw at at (count-swap_at q xs i inside)

-- The listings under every key after each of the operations.
module _ (p q : ℕ) (key k : Bytes) (m : Table Bytes (List ℕ)) where
  pub count-track :
      0 < length key
      → count q (find_all k (track p key m))
        ≡ count q (find_all k m) + (if same key k then hit p q else 0)
  unfolding track
  count-track h = ground (
    arith,
    find_all-put key k (find_all key m ++ p ∷ []) m,
    count-snoc p q (find_all key m),
    same_iff key k,
  )

  find_all-drop_empty : find_all k (drop_empty key m) ≡ find_all k m
  unfolding drop_empty
  find_all-drop_empty =
      ground (arith, find_all-delete key k m, same_iff key k, empty (find_all key m))
    where
      empty : (xs : List ℕ) → length xs ≡ 0 → xs ≡ []
      empty [] e = refl
      empty (x ∷ xs) e = absurd (omega arith)

  count-remove_tracked :
      count q (find_all k (remove_tracked p key m))
      ≡ count q (find_all k m) - (if same key k then hit p q else 0)
  unfolding remove_tracked
  count-remove_tracked = elim (Option-cases (index_of p (find_all key m))) [
    | inl e ↦ ground (arith, e, index_of-none p (find_all key m) e, same_iff key k)
    | inr (i, e) ↦ ground (
      arith,
      e,
      count-swap_out p q (find_all key m) i e,
      find_all-put key k (swap_out i (find_all key m)) m,
      same_iff key k,
    )
  ]

module _ (p q : ℕ) (key k : Bytes) (m : Table Bytes (List ℕ)) where
  pub count-untrack :
      0 < length key
      → count q (find_all k (untrack p key m))
        ≡ count q (find_all k m) - (if same key k then hit p q else 0)
  unfolding untrack
  count-untrack h = ground (
    arith,
    find_all-drop_empty p q key k (remove_tracked p key m),
    count-remove_tracked p q key k m,
  )

  pub count-untrack_ne : q ≢ p → count q (find_all k (untrack p key m)) ≡ count q (find_all k m)
  count-untrack_ne ne = elim (ℕ_discrete (length key) 0) [
    | yes e ↦ unfold untrack in rw e refl
    | no n ↦ ground (arith, count-untrack (omega (arith, n)))
  ]

  pub count-track_ne : q ≢ p → count q (find_all k (track p key m)) ≡ count q (find_all k m)
  count-track_ne ne = elim (ℕ_discrete (length key) 0) [
    | yes e ↦ unfold track in rw e refl
    | no n ↦ ground (arith, count-track p q key k m (omega (arith, n)))
  ]
