-- ===== src/Server/Repository/Owned.antt =====
-- The maps from addresses and route ids to peers (repository.go) under the loops that write a peer's
-- entries and under the deletions that look whose entry it is.
use tun_go.Base.{ℕ, ◌≡◌, ◌≢◌, ◌⊎◌, inl, inr, List, [], ◌∷◌, true, some, arith, ==_iff, Bool-cases}
use tun_go.Base.Table.{Eq, Table, find, find-put, find-delete, put}
use tun_go.Ip.{Addr, same_addr, contains}
use tun_go.Ip.Prefix.{addr_eq, same_addr_iff}
use tun_go.Server.Repository.{put_all, delete_own, delete_all_own}

module _ {K : Type 0} ⦃e : Eq K⦄ where
  -- An entry that is left was there, and is not the peer's own under the key.
  pub find-delete_own :
      (p : ℕ) (k q : K) (m : Table K ℕ) (v : ℕ)
      → find q (delete_own p k m) ≡ some v
      → (find q m ≡ some v) × (k ≡ q → v ≢ p)
  unfolding delete_own
  find-delete_own p k q m v h = (
    ground (arith, find-delete k q m),
    λ same own. ground (arith, find-delete k q m, e.beq_iff k q, ==_iff v p),
  )

pub find-delete_all_own :
    (p : ℕ) (addrs : List Addr) (a : Addr) (m : Table Addr ℕ) (v : ℕ)
    → find a (delete_all_own p addrs m) ≡ some v
    → (find a m ≡ some v) × (contains addrs a ≡ true → v ≢ p)
unfolding delete_all_own contains
find-delete_all_own p [] a m v h = (h, λ e. absurd (cc))
find-delete_all_own p (b ∷ addrs) a m v h =
    let (before, others) = find-delete_all_own p addrs a (delete_own p b m) v h in
    let (there, own) = find-delete_own p b a m v before in
    (there, λ e own_entry. ground (arith, same_addr_iff b a, others, own))

pub find-put_all :
    (p : ℕ) (addrs : List Addr) (a : Addr) (m : Table Addr ℕ) (v : ℕ)
    → find a (put_all p addrs m) ≡ some v
    → ((v ≡ p) × (contains addrs a ≡ true)) ⊎ (find a m ≡ some v)
unfolding put_all contains
find-put_all p [] a m v h = inr h
find-put_all p (b ∷ addrs) a m v h = elim (find-put_all p addrs a (put b p m) v h) [
  | inl own ↦ inl (own.0, ground (arith, own.1))
  | inr before ↦ elim (Bool-cases (same_addr b a)) [
    | inl here ↦ inl (ground (arith, find-put b a p m), ground (arith, here))
    | inr other ↦ inr (ground (arith, find-put b a p m))
  ]
]
