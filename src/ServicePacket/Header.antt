-- ===== src/ServicePacket/Header.antt =====
-- What `Parse` accepts is what `Encode` writes.
use tun_go.Base.{ℕ, ◌≤◌, ◌≡◌, ◌↔◌, refl, [], ◌∷◌, some, Bytes, length, ok, arith}
use tun_go.ServicePacket.{parse, encode}

parsed_is_encoded : (t : ℕ) (pkt : Bytes) → parse pkt ≡ some t → encode t pkt ≡ ok pkt
unfolding parse encode
parsed_is_encoded t [] e = cc
parsed_is_encoded t (a ∷ []) e = cc
parsed_is_encoded t (a ∷ b ∷ []) e = cc
parsed_is_encoded t (a ∷ b ∷ c ∷ pkt) e = ground arith

encoded_is_parsed : (t : ℕ) (pkt : Bytes) → encode t pkt ≡ ok pkt → parse pkt ≡ some t
unfolding parse encode
encoded_is_parsed t [] e = absurd (cc)
encoded_is_parsed t (a ∷ []) e = absurd (cc)
encoded_is_parsed t (a ∷ b ∷ []) e = absurd (cc)
encoded_is_parsed t (a ∷ b ∷ c ∷ pkt) e = ground arith

-- Parse finds header type t exactly in the packets that Encode of t leaves as they are.
pub parse_iff : (t : ℕ) (pkt : Bytes) → (parse pkt ≡ some t) ↔ (encode t pkt ≡ ok pkt)
parse_iff t pkt = (parsed_is_encoded t pkt, encoded_is_parsed t pkt)

-- `Encode` into three bytes or more leaves a packet of the same length that parses as `t`.
pub parse-encode :
    (t : ℕ) (dst : Bytes)
    → 3 ≤ length dst
    → (pkt : Bytes) × (encode t dst ≡ ok pkt) × (parse pkt ≡ some t) × (length pkt ≡ length dst)
unfolding parse encode
parse-encode t [] room = absurd (omega arith)
parse-encode t (a ∷ []) room = absurd (omega arith)
parse-encode t (a ∷ b ∷ []) room = absurd (omega arith)
parse-encode t (a ∷ b ∷ c ∷ dst) room = (255 ∷ (1 ∷ (t ∷ dst)), ground arith, ground arith, refl)
