-- ===== src/Config/Addressing/Clients.antt =====
-- The addresses of different clients (ipassign.go): they differ from one another, from the server's
-- and from those that name the whole subnet, and lie in it.
use tun_go.Base.{
  ℕ, ◌+◌, ◌-◌, ◌*◌, ◌/◌, ◌%◌, ◌^◌, ◌<◌, ◌≤◌, ◌≡◌, ◌≢◌, ◌∙◌, sym, ap, true, some, ◌==◌, arith, Bytes,
  length, take, drop, be, put_be, ok, ==_iff, be-put_be, drop-append_of_length, length-take,
}
use native.Mathlib.Nat.{mul-add-div_right, div-eq_of_lt, one-le-pow}
use tun_go.Ip.{Addr, v4, v6}
use tun_go.Ip.Prefix.{Prefix, prefix_contains, contains_within, same_leading}
use tun_go.Config.Addressing.{
  ipv4_subnet, next_ipv4, next_ipv6, allocate_server_ip, allocate_client_ipv4, allocate_client_ipv6,
  allocate_client_ip, next_ipv4_lem,
}

-- The address names a network of the length: its host bits are zero.
pub record IsNetwork (b : Bytes) (n : ℕ) : Type 0 where
  pub block : ℕ
  pub aligned : be b ≡ block * 2 ^ (32 - n)
  pub room : be b + 2 ^ (32 - n) ≤ 2 ^ 32

-- What a success says of the counter and of the address.
allocated :
    (b : Bytes) (n counter : ℕ) (a : Addr)
    → allocate_client_ip (ipv4_subnet b n) counter ≡ ok a
    → (1 ≤ counter) × (counter < 2 ^ (32 - n) - 2) × (a ≡ v4 (put_be 4 (next_ipv4 b counter)))
unfolding allocate_client_ip allocate_client_ipv4
allocated b n counter a h = ground arith

same_block : (k total r : ℕ) → r < total → (k * total + r) / total ≡ k
same_block k total r h = mul-add-div_right (omega arith) k r ∙ omega (arith, div-eq_of_lt h)

pub record IsClientOf (b : Bytes) (n : ℕ) (a : Addr) : Type 0 where
  pub inside : prefix_contains (ipv4_subnet b n) a ≡ true
  pub not_network : a ≢ v4 b
  pub not_server : allocate_server_ip (ipv4_subnet b n) ≢ ok a
  pub not_broadcast : a ≢ v4 (put_be 4 (be b + (2 ^ (32 - n) - 1)))

-- The number that an IPv4 address stands for.
abbrev value : Addr → ℕ
value (v4 b) = be b
value (v6 b) = 0

module _ (b : Bytes) (n counter : ℕ) (a : Addr) (net : IsNetwork b n) where
  allocated_value :
      allocate_client_ip (ipv4_subnet b n) counter ≡ ok a
      → (a ≡ v4 (put_be 4 (be b + 1 + counter)))
        × (value a ≡ be b + 1 + counter)
        × (1 ≤ counter)
        × (counter < 2 ^ (32 - n) - 2)
  allocated_value h =
      let (low, high, at) = allocated b n counter a h in
      let next = next_ipv4_lem b (2 ^ (32 - n)) counter net.room high in
      let here : a ≡ v4 (put_be 4 (be b + 1 + counter)) = at ∙ ap (λ t. v4 (put_be 4 t)) next in
      (here, ap value here ∙ be-put_be 4 (be b + 1 + counter) (omega arith), low, high)

  inside_lem :
      counter < 2 ^ (32 - n) - 2
      → (be b / 2 ^ (32 - n) == (be b + 1 + counter) / 2 ^ (32 - n)) ≡ true
  inside_lem high = (==_iff _ _).1 (
      ap (λ t. t / 2 ^ (32 - n)) (omega (arith, net.aligned))
      ∙ same_block net.block (2 ^ (32 - n)) 0 (omega arith)
      ∙ sym (same_block net.block (2 ^ (32 - n)) (1 + counter) (omega arith))
      ∙ ap (λ t. t / 2 ^ (32 - n)) (omega (arith, net.aligned)))

-- An address that AllocateClientIP gives out in an aligned IPv4 network lies in the network, and is
-- neither the network's own, nor the server's, nor the broadcast address.
pub allocate_client_ip-IsClientOf :
    (b : Bytes) (n counter : ℕ) (a : Addr)
    → IsNetwork b n
    → allocate_client_ip (ipv4_subnet b n) counter ≡ ok a
    → IsClientOf b n a
unfolding allocate_server_ip prefix_contains contains_within same_leading
allocate_client_ip-IsClientOf b n counter a net h =
    let (at, is, low, high) = allocated_value b n counter a net h in
    record {
      inside = rw at (
          rw (be-put_be 4 (be b + 1 + counter) (omega (arith, net.room)))
            (inside_lem b n counter a net high));
      not_network = λ e. omega (arith, ap value e, is);
      not_server = λ e.
          let own : v4 (put_be 4 ((be b + 1) % 2 ^ 32)) ≡ a = cc in
          omega
            (arith, ap value own, is, be-put_be 4 ((be b + 1) % 2 ^ 32) (omega arith), net.room);
      not_broadcast = λ e. omega (
        arith,
        ap value e,
        is,
        be-put_be 4 (be b + (2 ^ (32 - n) - 1))
            (omega (arith, net.room, one-le-pow (32 - n) 2 (omega arith))),
      );
    }

-- Two clients of an IPv4 network share no address.
pub allocate_client_ipv4_injective :
    (b : Bytes) (n c d : ℕ) (a : Addr)
    → IsNetwork b n
    → allocate_client_ip (ipv4_subnet b n) c ≡ ok a
    → allocate_client_ip (ipv4_subnet b n) d ≡ ok a
    → c ≡ d
allocate_client_ipv4_injective b n c d a net h k =
    omega (arith, (allocated_value b n c a net h).1, (allocated_value b n d a net k).1)

abbrev pub ipv6_subnet : Bytes → ℕ → Prefix
ipv6_subnet b n = record { addr = v6 b; bits = some n }

allocated_ipv6 :
    (b : Bytes) (n counter : ℕ) (a : Addr)
    → allocate_client_ip (ipv6_subnet b n) counter ≡ ok a
    → (1 ≤ counter) × (prefix_contains (ipv6_subnet b n) a ≡ true) × (a ≡ v6 (next_ipv6 b counter))
unfolding allocate_client_ip allocate_client_ipv6
allocated_ipv6 b n counter a h = ground arith

-- The low half of an IPv6 address.
abbrev low_half : Addr → ℕ
low_half (v4 b) = 0
low_half (v6 b) = be (drop 8 b)

next_low :
    (b : Bytes) (counter : ℕ)
    → 8 ≤ length b
    → low_half (v6 (next_ipv6 b counter)) ≡ (be (drop 8 b) + (counter + 1)) % 2 ^ 64
unfolding next_ipv6
next_low b counter h =
    ap be (
      drop-append_of_length 8 (take 8 b) (put_be 8 ((be (drop 8 b) + (counter + 1)) % 2 ^ 64))
        (omega (arith, length-take 8 b)))
    ∙ be-put_be 8 ((be (drop 8 b) + (counter + 1)) % 2 ^ 64) (omega arith)

-- Two client counters below 2^63 that get the same address in an IPv6 subnet are equal, and that
-- address lies in the subnet and is not the server's.
pub allocate_client_ipv6_distinct :
    (b : Bytes) (n c d : ℕ) (a : Addr)
    → 8 ≤ length b
    → c < 2 ^ 63
    → d < 2 ^ 63
    → allocate_client_ip (ipv6_subnet b n) c ≡ ok a
    → allocate_client_ip (ipv6_subnet b n) d ≡ ok a
    → (c ≡ d)
      × (allocate_server_ip (ipv6_subnet b n) ≢ ok a)
      × (prefix_contains (ipv6_subnet b n) a ≡ true)
unfolding allocate_server_ip
allocate_client_ipv6_distinct b n c d a long small_c small_d h k =
    let (low, inside, at) = allocated_ipv6 b n c a h in
    (
      omega (
        arith,
        ap low_half (sym at ∙ (allocated_ipv6 b n d a k).2),
        next_low b c long,
        next_low b d long,
      ),
      λ s.
          let own : v6 (next_ipv6 b 0) ≡ a = unfold next_ipv6 in cc s in
          omega (arith, ap low_half (own ∙ at), next_low b 0 long, next_low b c long, low),
      inside,
    )
