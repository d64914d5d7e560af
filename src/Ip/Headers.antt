-- ===== src/Ip/Headers.antt =====
-- The extracted addresses are those that a packet's header carries, and only allowed ones pass.
use tun_go.Base.{
  ℕ, zero, suc, ◌+◌, ◌/◌, ◌≤◌, ◌≡◌, ◌↔◌, refl, sym, ap, ◌∙◌, List, [], ◌∷◌, ◌++◌, true, false, some,
  Option-cases, inl, inr, Bytes, length, length-append, length-take, length-drop, take, drop,
  get_or, subst, ℕ_discrete, arith,
}
use tun_go.Ip.{
  Addr, v4, v6, slice, extract_ip_by_offsets, extract_source_ip, unmap, contains, is_allowed_source,
}
use tun_go.Ip.Addresses.{slice_of, Among, contains-Among, Among-contains}

-- `src` behind `before` bytes of a packet, the first of which has `version` in its high half, with
-- at least `after` bytes behind it.
pub record Carries (version before after : ℕ) (packet src : Bytes) : Type 0 where
  pub first : ℕ
  pub front : Bytes
  pub rest : Bytes
  pub whole : packet ≡ (first ∷ front) ++ (src ++ rest)
  pub versioned : first / 16 ≡ version
  pub placed : length front + 1 ≡ before
  pub followed : after ≤ length rest

-- Where the header of a packet has its source address.
abbrev pub HasSource : Bytes → Addr → Type 0
HasSource packet (v4 src) = Carries 4 12 4 packet src × (length src ≡ 4)
HasSource packet (v6 src) = Carries 6 8 16 packet src × (length src ≡ 16)

take-append-drop : (n : ℕ) (xs : Bytes) → take n xs ++ drop n xs ≡ xs
take-append-drop zero xs = refl
take-append-drop (suc n) [] = refl
take-append-drop (suc n) (x ∷ xs) = ap (◌∷◌ x) (take-append-drop n xs)

cut :
    (version before size after : ℕ) (first : ℕ) (packet : Bytes)
    → first / 16 ≡ version
    → before + size + after ≤ length packet
    → Carries version (before + 1) after (first ∷ packet) (take size (drop before packet))
cut version before size after first packet v long = record {
  first = first;
  front = take before packet;
  rest = drop size (drop before packet);
  whole = ap (◌∷◌ first) (
      sym (take-append-drop before packet)
      ∙ ap (◌++◌ (take before packet)) (sym (take-append-drop size (drop before packet))));
  versioned = v;
  placed = omega (arith, length-take before packet);
  followed = omega (arith, length-drop size (drop before packet), length-drop before packet);
}

length-slice : (packet : Bytes) (n k : ℕ) → n + k ≤ length packet → length (slice packet n k) ≡ k
unfolding slice
length-slice packet n k long = omega (arith, length-take k (drop n packet), length-drop n packet)

-- The extracted source is that of the header.
extract-HasSource :
    (packet : Bytes) (a : Addr) → extract_source_ip packet ≡ some a → HasSource packet a
unfolding extract_source_ip extract_ip_by_offsets
extract-HasSource [] a e = absurd (cc)
extract-HasSource (x ∷ p) a e = elim (ℕ_discrete (x / 16) 4) [
  | yes four ↦
      let long : 19 ≤ length p = ground (arith, e, four) in
      let found : v4 (slice (x ∷ p) 12 4) ≡ a = ground (arith, e, four, long) in
      unfold slice in
      subst (HasSource (x ∷ p)) found
        (cut 4 11 4 4 x p four long, length-slice (x ∷ p) 12 4 (omega arith))
  | no not_four ↦ elim (ℕ_discrete (x / 16) 6) [
    | yes six ↦
        let long : 39 ≤ length p = ground (arith, e, six) in
        let found : v6 (slice (x ∷ p) 8 16) ≡ a = ground (arith, e, six, long) in
        unfold slice in
        subst (HasSource (x ∷ p)) found
          (cut 6 7 16 16 x p six long, length-slice (x ∷ p) 8 16 (omega arith))
    | no not_six ↦ absurd (ground (arith, e, not_four, not_six))
  ]
]

HasSource-extract :
    (packet : Bytes) (a : Addr) → HasSource packet a → extract_source_ip packet ≡ some a
unfolding extract_source_ip extract_ip_by_offsets
HasSource-extract packet (v4 src) (c, size) =
    let long : length packet ≡ length c.front + 1 + (length src + length c.rest) =
      ap length c.whole
      ∙ omega (arith, length-append c.front (src ++ c.rest), length-append src c.rest) in
    let cut_out : slice packet 12 4 ≡ src =
      ap (λ (p : Bytes). slice p 12 4) c.whole
      ∙ slice_of (c.first ∷ c.front) src c.rest 12 4 (omega (arith, c.placed)) size in
    let head : get_or packet 0 0 ≡ c.first = ap (λ (p : Bytes). get_or p 0 0) c.whole in
    ground (arith, c.versioned, c.placed, c.followed, cut_out, head, long)
HasSource-extract packet (v6 src) (c, size) =
    let long : length packet ≡ length c.front + 1 + (length src + length c.rest) =
      ap length c.whole
      ∙ omega (arith, length-append c.front (src ++ c.rest), length-append src c.rest) in
    let cut_out : slice packet 8 16 ≡ src =
      ap (λ (p : Bytes). slice p 8 16) c.whole
      ∙ slice_of (c.first ∷ c.front) src c.rest 8 16 (omega (arith, c.placed)) size in
    let head : get_or packet 0 0 ≡ c.first = ap (λ (p : Bytes). get_or p 0 0) c.whole in
    ground (arith, c.versioned, c.placed, c.followed, cut_out, head, long)

-- IsAllowedSource passes a packet exactly when it starts with an IPv4 header of at least 20 bytes
-- or an IPv6 header of 40 bytes, told apart by the high half of the first byte, and the address at
-- bytes 12 to 15 or 8 to 23, taken as an IPv4 address where it is one written as IPv6, is in the
-- set.
pub is_allowed_source_iff :
    (packet : Bytes) (allowed : List Addr)
    → (is_allowed_source packet allowed ≡ true)
      ↔ ((src : Addr) × HasSource packet src × Among allowed (unmap src))
unfolding is_allowed_source
is_allowed_source_iff packet allowed = (passes, passed)
  where
    passes :
        is_allowed_source packet allowed ≡ true
        → (src : Addr) × HasSource packet src × Among allowed (unmap src)
    passes e = elim (Option-cases (extract_source_ip packet)) [
      | inl q ↦
          absurd (
            let no : is_allowed_source packet allowed ≡ false = rw (q, is_allowed_source) refl in
            cc)
      | inr (src, q) ↦
          let found : contains allowed (unmap src) ≡ true =
            sym (rw (q, is_allowed_source) refl) ∙ e in
          (src, extract-HasSource packet src q, contains-Among allowed (unmap src) found)
    ]

    passed :
        (src : Addr) × HasSource packet src × Among allowed (unmap src)
        → is_allowed_source packet allowed ≡ true
    passed (src, h, m) =
        rw (HasSource-extract packet src h, is_allowed_source)
          (Among-contains allowed (unmap src) m)
