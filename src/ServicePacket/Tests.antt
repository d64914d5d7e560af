-- ===== src/ServicePacket/Tests.antt =====
-- A rekey-init header, written and read.
use tun_go.Base.{◌≡◌, refl, [], ◌∷◌, Bytes, length, ok, some, none, arith}
use tun_go.ServicePacket.{parse, encode, rekey_init}
use tun_go.ServicePacket.Header.{parse-encode}

abbrev blank : Bytes
blank = 0 ∷ 0 ∷ 0 ∷ 9 ∷ []

not_a_header : parse blank ≡ none
unfolding parse
not_a_header = refl

parse-encode_example :
    (pkt : Bytes) × (encode rekey_init blank ≡ ok pkt)
    × (parse pkt ≡ some rekey_init)
    × (length pkt ≡ length blank)
parse-encode_example = parse-encode rekey_init blank (omega arith)
