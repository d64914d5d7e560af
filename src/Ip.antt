-- ===== src/Ip.antt =====
-- src/internal/protocol/ip/extractor.go: the addresses of an IP packet. A `netip.Addr` is its bytes
-- under its family (an address that is not valid does not come out), and a set of them a list.
pub mod Addresses
pub mod Headers
pub mod Prefix
pub mod Version
mod Tests
use tun_go.Base.{
  ℕ, ◌+◌, ◌/◌, List, [], ◌∷◌, Bool, true, false, ◌&&◌, ◌||◌, Option, none, some, ltb, ◌==◌,
  if◌then◌else◌, Bytes, length, take, drop, get_or,
}

abbrev pub ipv4_version : ℕ
ipv4_version = 4

abbrev pub ipv6_version : ℕ
ipv6_version = 6

abbrev pub ipv4_header_min_len : ℕ
ipv4_header_min_len = 20

abbrev pub ipv6_header_len : ℕ
ipv6_header_len = 40

abbrev pub ipv4_src_offset : ℕ
ipv4_src_offset = 12

abbrev pub ipv4_dst_offset : ℕ
ipv4_dst_offset = 16

abbrev pub ipv6_src_offset : ℕ
ipv6_src_offset = 8

abbrev pub ipv6_dst_offset : ℕ
ipv6_dst_offset = 24

pub data Addr : Type 0 where
  v4 v6 : Bytes → Addr

-- `packet[from : from+n]`
unfoldable pub slice : Bytes → ℕ → ℕ → Bytes
slice packet from n = take n (drop from packet)

unfoldable pub extract_ip_by_offsets : Bytes → ℕ → ℕ → Option Addr
extract_ip_by_offsets packet ipv4_offset ipv6_offset =
    if ltb (length packet) 1
    then none
    else (let version = get_or packet 0 0 / 16 in
        if version == ipv4_version
        then (if ltb (length packet) ipv4_header_min_len
            then none
            else some (v4 (slice packet ipv4_offset 4)))
        else if version == ipv6_version
        then (if ltb (length packet) ipv6_header_len
            then none
            else some (v6 (slice packet ipv6_offset 16)))
        else none)

unfoldable pub extract_source_ip : Bytes → Option Addr
extract_source_ip packet = extract_ip_by_offsets packet ipv4_src_offset ipv6_src_offset

unfoldable pub extract_dest_ip : Bytes → Option Addr
extract_dest_ip packet = extract_ip_by_offsets packet ipv4_dst_offset ipv6_dst_offset

unfoldable pub same : Bytes → Bytes → Bool
same [] [] = true
same [] (y ∷ ys) = false
same (x ∷ xs) [] = false
same (x ∷ xs) (y ∷ ys) = x == y && same xs ys

-- `netip.Addr.Unmap`: an IPv4 address written as ::ffff:a.b.c.d becomes that IPv4 address.
unfoldable pub unmap : Addr → Addr
unmap (v4 b) = v4 b
unmap (v6 b) =
    if same (take 12 b) (0 ∷ 0 ∷ 0 ∷ 0 ∷ 0 ∷ 0 ∷ 0 ∷ 0 ∷ 0 ∷ 0 ∷ 255 ∷ 255 ∷ [])
    then v4 (drop 12 b)
    else v6 b

unfoldable pub same_addr : Addr → Addr → Bool
same_addr (v4 a) (v4 b) = same a b
same_addr (v4 a) (v6 b) = false
same_addr (v6 a) (v4 b) = false
same_addr (v6 a) (v6 b) = same a b

-- The lookup in the set.
unfoldable pub contains : List Addr → Addr → Bool
contains [] a = false
contains (x ∷ xs) a = same_addr x a || contains xs a

unfoldable pub is_allowed_source : Bytes → List Addr → Bool
is_allowed_source packet allowed = elim (extract_source_ip packet) [
  | none ↦ false
  | some src ↦ contains allowed (unmap src)
]

unfoldable pub extract_ip_version : Bytes → ℕ
extract_ip_version packet = if ltb (length packet) 1 then 0 else get_or packet 0 0 / 16
