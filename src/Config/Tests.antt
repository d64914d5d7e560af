-- ===== src/Config/Tests.antt =====
-- Addresses in 10.0.0.0/24 and in fd00::/64.
use tun_go.Base.{ℕ, ◌+◌, ◌≡◌, refl, [], ◌∷◌, Bytes, replicate, be, put_be, ok, arith}
use tun_go.Ip.{Addr, v4, v6}
use tun_go.Ip.Prefix.{prefix_contains, contains_within, same_leading}
use tun_go.Config.Addressing.{
  allocate_client_ip, allocate_client_ipv4_total, ipv4_subnet, next_ipv6,
}
use tun_go.Config.Addressing.Clients.{
  IsNetwork, IsClientOf, allocate_client_ip-IsClientOf, allocate_client_ipv4_injective, ipv6_subnet,
}

abbrev network : Bytes
network = 10 ∷ 0 ∷ 0 ∷ 0 ∷ []

abbrev network6 : Bytes
network6 = 253 ∷ replicate 15 0

network-IsNetwork : IsNetwork network 24
unfolding be
network-IsNetwork = record { block = 655360; aligned = refl; room = omega arith }

abbrev client : Addr
client = v4 (put_be 4 (be network + 1 + 7))

allocate_client_ipv4_total_example : allocate_client_ip (ipv4_subnet network 24) 7 ≡ ok client
unfolding be
allocate_client_ipv4_total_example =
    allocate_client_ipv4_total network 24 7 (omega arith) (omega arith) (omega arith) (omega arith)

seventh : allocate_client_ip (ipv4_subnet network 24) 7 ≡ ok client
unfolding be
seventh =
    allocate_client_ipv4_total network 24 7 (omega arith) (omega arith) (omega arith) (omega arith)

allocate_client_ip-IsClientOf_example : IsClientOf network 24 client
allocate_client_ip-IsClientOf_example =
    allocate_client_ip-IsClientOf network 24 7 client network-IsNetwork seventh

allocate_client_ipv4_injective_example : ◌≡◌ {A = ℕ} 7 7
allocate_client_ipv4_injective_example =
    allocate_client_ipv4_injective network 24 7 7 client network-IsNetwork seventh seventh

seventh6 : allocate_client_ip (ipv6_subnet network6 64) 7 ≡ ok (v6 (next_ipv6 network6 7))
unfolding allocate_client_ip be prefix_contains contains_within same_leading put_be
seventh6 = refl
