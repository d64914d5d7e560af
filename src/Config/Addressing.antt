-- ===== src/Config/Addressing.antt =====
-- src/internal/config/addressing/ipassign.go: the addresses of the server and of its clients in a
-- subnet. Machine integers wrap around as written; a client counter is not negative.
pub mod Clients
use tun_go.Base.{
  ℕ, ◌+◌, ◌-◌, ◌*◌, ◌/◌, ◌%◌, ◌^◌, ◌<◌, ◌≤◌, ◌≡◌, ◌≢◌, refl, Bool, true, false, Option, none, some,
  ltb, leb, ◌==◌, ◌||◌, ◌++◌, arith, if◌then◌else◌, Bytes, length, take, drop, be, put_be, Result,
  ok, err, Bool-cases, inl, inr, ==_ne, be-put_be, ap, invalid_subnet, counter_out_of_range,
  generated_ip_invalid, exceeds_subnet, IsBytes,
}
use tun_go.Ip.{Addr, v4, v6, same_addr}
use tun_go.Ip.Prefix.{Prefix, same_addr_iff, prefix_contains}

-- What `AllocateServerIP` prints.
unfoldable pub allocate_server_ip : Prefix → Result Addr
allocate_server_ip subnet = elim subnet.bits [
  | none ↦ err invalid_subnet
  | some n ↦ elim subnet.addr [
    | v4 b ↦ ok (v4 (put_be 4 ((be b + 1) % 2 ^ 32)))
    | v6 b ↦ ok (v6 (take 8 b ++ put_be 8 ((be (drop 8 b) + 1) % 2 ^ 64)))
  ]
]

-- `base + 1 + uint32(clientCounter)`
unfoldable pub next_ipv4 : Bytes → ℕ → ℕ
next_ipv4 b counter = (be b + 1 + counter) % 2 ^ 32

unfoldable pub allocate_client_ipv4 : Bytes → ℕ → ℕ → Result Addr
unfolding next_ipv4
allocate_client_ipv4 b ones counter =
    if ltb ones 2
    then err counter_out_of_range
    else if ltb counter 1 || leb (2 ^ (32 - ones) - 2) counter
    then err counter_out_of_range
    else if same_addr (v4 (put_be 4 (next_ipv4 b counter))) (v4 b)
        || next_ipv4 b counter == (be b + (2 ^ (32 - ones) - 1)) % 2 ^ 32
    then err generated_ip_invalid
    else ok (v4 (put_be 4 (next_ipv4 b counter)))

unfoldable pub next_ipv6 : Bytes → ℕ → Bytes
next_ipv6 b counter = take 8 b ++ put_be 8 ((be (drop 8 b) + (counter + 1)) % 2 ^ 64)

unfoldable pub allocate_client_ipv6 : Prefix → Bytes → ℕ → Result Addr
unfolding next_ipv6
allocate_client_ipv6 subnet b counter =
    if ltb counter 1
    then err counter_out_of_range
    else if prefix_contains subnet (v6 (next_ipv6 b counter))
    then ok (v6 (next_ipv6 b counter))
    else err exceeds_subnet

unfoldable pub allocate_client_ip : Prefix → ℕ → Result Addr
unfolding allocate_client_ipv4 allocate_client_ipv6
allocate_client_ip subnet counter = elim subnet.bits [
  | none ↦ err invalid_subnet
  | some n ↦ elim subnet.addr [
    | v4 b ↦ allocate_client_ipv4 b n counter
    | v6 b ↦ allocate_client_ipv6 subnet b counter
  ]
]

abbrev pub ipv4_subnet : Bytes → ℕ → Prefix
ipv4_subnet b n = record { addr = v4 b; bits = some n }

module _ (b : Bytes) (total counter : ℕ) where
  module _ (room : be b + total ≤ 2 ^ 32) (high : counter < total - 2) where
    pub next_ipv4_lem : next_ipv4 b counter ≡ be b + 1 + counter
    unfolding next_ipv4
    next_ipv4_lem = omega arith

    not_network : same_addr (v4 (put_be 4 (be b + 1 + counter))) (v4 b) ≡ false
    not_network = elim (Bool-cases (same_addr (v4 (put_be 4 (be b + 1 + counter))) (v4 b))) [
      | inl e ↦ absurd (clash ((same_addr_iff _ _).0 e))
      | inr e ↦ e
    ]
      where
        clash : v4 (put_be 4 (be b + 1 + counter)) ≡ v4 b → ⊥
        clash e =
            let same_bytes : put_be 4 (be b + 1 + counter) ≡ b = cc in
            omega (arith, be-put_be 4 (be b + 1 + counter) (omega arith), ap be same_bytes)

    not_broadcast : (be b + 1 + counter == (be b + (total - 1)) % 2 ^ 32) ≡ false
    not_broadcast = ==_ne _ _ (λ e. omega (arith, e))

-- Every counter up to the number of clients gets its address.
pub allocate_client_ipv4_total :
    (b : Bytes) (n counter : ℕ)
    → be b + 2 ^ (32 - n) ≤ 2 ^ 32
    → 2 ≤ n
    → 1 ≤ counter
    → counter < 2 ^ (32 - n) - 2
    → allocate_client_ip (ipv4_subnet b n) counter ≡ ok (v4 (put_be 4 (be b + 1 + counter)))
unfolding allocate_client_ip allocate_client_ipv4
allocate_client_ipv4_total b n counter room wide low high = ground (
  arith,
  next_ipv4_lem b (2 ^ (32 - n)) counter room high,
  not_network b (2 ^ (32 - n)) counter room high,
  not_broadcast b (2 ^ (32 - n)) counter room high,
)
