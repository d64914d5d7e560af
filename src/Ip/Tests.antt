-- ===== src/Ip/Tests.antt =====
-- Packets with known headers, and one whose IPv6 source is a written-out IPv4 address.
use tun_go.Base.{◌≡◌, ◌↔◌, refl, [], ◌∷◌, ◌++◌, true, Bytes, replicate}
use tun_go.Ip.{
  Addr, v4, slice, extract_ip_by_offsets, extract_source_ip, same, same_addr, unmap, contains,
  is_allowed_source,
}
use tun_go.Ip.Addresses.{Among}
use tun_go.Ip.Headers.{HasSource, is_allowed_source_iff}

abbrev src : Bytes
src = 10 ∷ 0 ∷ 0 ∷ 5 ∷ []

abbrev dst : Bytes
dst = 10 ∷ 0 ∷ 0 ∷ 1 ∷ []

abbrev mapped : Bytes
mapped = (96 ∷ replicate 7 0) ++ ((replicate 10 0 ++ (255 ∷ 255 ∷ src)) ++ replicate 16 0)

mapped_passes : is_allowed_source mapped (v4 src ∷ []) ≡ true
unfolding is_allowed_source extract_source_ip extract_ip_by_offsets slice unmap same contains
    same_addr
mapped_passes = refl

is_allowed_source_iff_example :
    (is_allowed_source mapped (v4 src ∷ []) ≡ true)
    ↔ ((a : Addr) × HasSource mapped a × Among (v4 src ∷ []) (unmap a))
is_allowed_source_iff_example = is_allowed_source_iff mapped (v4 src ∷ [])
