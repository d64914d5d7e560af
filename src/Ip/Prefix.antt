-- ===== src/Ip/Prefix.antt =====
-- The parts of net/netip that the server's sessions use: addresses as keys, prefixes and the test
-- whether a prefix contains an address. No address here has a zone.
use tun_go.Base.{
  ℕ, ◌-◌, ◌/◌, ◌^◌, ◌≡◌, refl, ◌↔◌, Bool, true, false, Option, none, some, leb, ◌==◌, arith,
  if◌then◌else◌, Bytes, be,
}
use tun_go.Base.Table.{Eq}
use tun_go.Ip.{Addr, v4, v6, same, same_addr, unmap}
use tun_go.Ip.Addresses.{same-≡, same_self, same_addr-≡, same_addr_self}

pub same_iff : (a b : Bytes) → (same a b ≡ true) ↔ (a ≡ b)
same_iff a b = (same-≡ a b, λ e. ground (arith, same_self a, e))

pub same_addr_iff : (a b : Addr) → (same_addr a b ≡ true) ↔ (a ≡ b)
same_addr_iff a b = (same_addr-≡ a b, λ e. ground (arith, same_addr_self a, e))

instance abbrev pub bytes_eq : Eq Bytes
bytes_eq = record { beq = same; beq_iff = same_iff }

instance abbrev pub addr_eq : Eq Addr
addr_eq = record { beq = same_addr; beq_iff = same_addr_iff }

pub record AddrPort : Type 0 where
  pub addr : Addr
  pub port : ℕ

unfoldable pub same_addr_port : AddrPort → AddrPort → Bool
same_addr_port a b = if same_addr a.addr b.addr then a.port == b.port else false

-- `netip.Prefix`; the bits of one that is not valid are `none`.
pub record Prefix : Type 0 where
  pub addr : Addr
  pub bits : Option ℕ

-- `Addr.BitLen`
unfoldable pub bit_len : Addr → ℕ
bit_len (v4 b) = 32
bit_len (v6 b) = 128

-- `netip.PrefixFrom`: no bit of the address is masked off.
unfoldable pub prefix_from : Addr → Option ℕ → Prefix
prefix_from a none = record { addr = a; bits = none }
prefix_from a (some n) = record { addr = a; bits = if leb n (bit_len a) then some n else none }

unfoldable pub is_valid : Prefix → Bool
is_valid p = elim p.bits [ none ↦ false | some n ↦ true ]

unfoldable pub is_single_ip : Prefix → Bool
unfolding bit_len
is_single_ip p = elim p.bits [ none ↦ false | some n ↦ n == bit_len p.addr ]

-- The leading `n` bits of two addresses of `len` bits agree.
unfoldable pub same_leading : ℕ → ℕ → Bytes → Bytes → Bool
same_leading len n a b = be a / 2 ^ (len - n) == be b / 2 ^ (len - n)

unfoldable pub contains_within : ℕ → Addr → Addr → Bool
contains_within n (v4 p) (v4 a) = same_leading 32 n p a
contains_within n (v6 p) (v6 a) = same_leading 128 n p a
contains_within n p a = false

-- `Prefix.Contains`
unfoldable pub prefix_contains : Prefix → Addr → Bool
prefix_contains p a = elim p.bits [ none ↦ false | some n ↦ contains_within n p.addr a ]

pub unmap-unmap : (a : Addr) → unmap (unmap a) ≡ unmap a
unfolding unmap
unmap-unmap (v4 b) = refl
unmap-unmap (v6 b) = ground arith
