-- ===== src/Ip/Addresses.antt =====
-- The addresses of a packet whose parts are known, and equality of addresses.
use tun_go.Base.{
  ℕ, ◌+◌, ◌/◌, ◌≤◌, ◌≡◌, refl, sym, ap, ◌∙◌, List, [], ◌∷◌, ◌++◌, true, some, inl, inr, ◌⊎◌,
  Bool-cases, Bytes, length, length-append, take, take-append_of_length, drop-append_of_length,
  arith, ==_iff,
}
use tun_go.Ip.{
  Addr, v4, v6, slice, extract_ip_by_offsets, extract_source_ip, extract_dest_ip, same, same_addr,
  contains,
}

-- A slice of a packet whose parts are known.
pub slice_of :
    (front part rest : Bytes) (n k : ℕ)
    → length front ≡ n
    → length part ≡ k
    → slice (front ++ (part ++ rest)) n k ≡ part
unfolding slice
slice_of front part rest n k e f =
    ap (take k) (drop-append_of_length n front (part ++ rest) e)
    ∙ take-append_of_length k part rest f

pub append_assoc : (a b c : Bytes) → (a ++ b) ++ c ≡ a ++ (b ++ c)
append_assoc [] b c = refl
append_assoc (x ∷ a) b c = ap (◌∷◌ x) (append_assoc a b c)

-- In an IPv4 packet of at least 20 bytes the source is the four bytes behind the first twelve, and
-- the destination the next four.
pub extract_ipv4 :
    (first : ℕ) (front src dst rest : Bytes)
    → first / 16 ≡ 4
    → length front ≡ 11
    → length src ≡ 4
    → length dst ≡ 4
    → (extract_source_ip ((first ∷ front) ++ (src ++ (dst ++ rest))) ≡ some (v4 src))
      × (extract_dest_ip ((first ∷ front) ++ (src ++ (dst ++ rest))) ≡ some (v4 dst))
unfolding extract_source_ip extract_dest_ip extract_ip_by_offsets
extract_ipv4 first front src dst rest version e f g =
    let long : 20 ≤ length (front ++ (src ++ (dst ++ rest))) + 1 = omega (
      arith,
      length-append front (src ++ (dst ++ rest)),
      length-append src (dst ++ rest),
      length-append dst rest,
    ) in
    let source : slice (first ∷ (front ++ (src ++ (dst ++ rest)))) 12 4 ≡ src =
      slice_of (first ∷ front) src (dst ++ rest) 12 4 (omega arith) f in
    let dest : slice (first ∷ (front ++ (src ++ (dst ++ rest)))) 16 4 ≡ dst =
      ap (λ (p : Bytes). slice p 16 4) (sym (append_assoc (first ∷ front) src (dst ++ rest)))
      ∙ slice_of ((first ∷ front) ++ src) dst rest 16 4
          (omega (arith, length-append (first ∷ front) src)) g in
    (ground (arith, source), ground (arith, dest))

-- In an IPv6 packet of at least 40 bytes the source is the sixteen bytes behind the first eight,
-- and the destination the next sixteen.
pub extract_ipv6 :
    (first : ℕ) (front src dst rest : Bytes)
    → first / 16 ≡ 6
    → length front ≡ 7
    → length src ≡ 16
    → length dst ≡ 16
    → (extract_source_ip ((first ∷ front) ++ (src ++ (dst ++ rest))) ≡ some (v6 src))
      × (extract_dest_ip ((first ∷ front) ++ (src ++ (dst ++ rest))) ≡ some (v6 dst))
unfolding extract_source_ip extract_dest_ip extract_ip_by_offsets
extract_ipv6 first front src dst rest version e f g =
    let long : 40 ≤ length (front ++ (src ++ (dst ++ rest))) + 1 = omega (
      arith,
      length-append front (src ++ (dst ++ rest)),
      length-append src (dst ++ rest),
      length-append dst rest,
    ) in
    let source : slice (first ∷ (front ++ (src ++ (dst ++ rest)))) 8 16 ≡ src =
      slice_of (first ∷ front) src (dst ++ rest) 8 16 (omega arith) f in
    let dest : slice (first ∷ (front ++ (src ++ (dst ++ rest)))) 24 16 ≡ dst =
      ap (λ (p : Bytes). slice p 24 16) (sym (append_assoc (first ∷ front) src (dst ++ rest)))
      ∙ slice_of ((first ∷ front) ++ src) dst rest 24 16
          (omega (arith, length-append (first ∷ front) src)) g in
    (ground (arith, source), ground (arith, dest))

pub same-≡ : (a b : Bytes) → same a b ≡ true → a ≡ b
unfolding same
same-≡ [] [] e = refl
same-≡ [] (y ∷ b) e = absurd (cc)
same-≡ (x ∷ a) [] e = absurd (cc)
same-≡ (x ∷ a) (y ∷ b) e =
    let heads : x ≡ y = ground (arith, e) in
    let tails : a ≡ b = same-≡ a b (ground (arith, e)) in cc

pub same_self : (a : Bytes) → same a a ≡ true
unfolding same
same_self [] = refl
same_self (x ∷ a) = ground (arith, (==_iff x x).1 refl, same_self a)

pub same_addr-≡ : (a b : Addr) → same_addr a b ≡ true → a ≡ b
unfolding same_addr
same_addr-≡ (v4 a) (v4 b) e = ap v4 (same-≡ a b e)
same_addr-≡ (v4 a) (v6 b) e = absurd (cc)
same_addr-≡ (v6 a) (v4 b) e = absurd (cc)
same_addr-≡ (v6 a) (v6 b) e = ap v6 (same-≡ a b e)

pub same_addr_self : (a : Addr) → same_addr a a ≡ true
unfolding same_addr
same_addr_self (v4 a) = same_self a
same_addr_self (v6 a) = same_self a

-- Membership in the set.
abbrev pub Among : List Addr → Addr → Type 0
Among [] a = ⊥
Among (x ∷ xs) a = (x ≡ a) ⊎ Among xs a

pub contains-Among : (l : List Addr) (a : Addr) → contains l a ≡ true → Among l a
unfolding contains
contains-Among [] a e = cc
contains-Among (x ∷ l) a e = elim (Bool-cases (same_addr x a)) [
  | inl q ↦ inl (same_addr-≡ x a q)
  | inr q ↦ inr (contains-Among l a (ground (arith, e, q)))
]

pub Among-contains : (l : List Addr) (a : Addr) → Among l a → contains l a ≡ true
unfolding contains
Among-contains [] a m = absurd m
Among-contains (x ∷ l) a (inl e) = rw e (ground (arith, same_addr_self a))
Among-contains (x ∷ l) a (inr m) = ground (arith, Among-contains l a m)
