-- ===== src/ServicePacket.antt =====
-- src/internal/protocol/servicepacket/header.go: the three bytes that mark a packet as the control
-- plane's own. A header type is a byte.
pub mod Header
mod Tests
use tun_go.Base.{
  ℕ, List, [], ◌∷◌, ◌&&◌, Option, none, some, ltb, ◌==◌, if◌then◌else◌, Bytes, length, drop, get_or,
  Result, ok, err, short_buffer,
}

abbrev pub prefix : ℕ
prefix = 255

abbrev pub version_v1 : ℕ
version_v1 = 1

abbrev pub rekey_init : ℕ
rekey_init = 2

abbrev pub rekey_ack : ℕ
rekey_ack = 3

abbrev pub ping : ℕ
ping = 4

abbrev pub pong : ℕ
pong = 5

abbrev pub epoch_exhausted : ℕ
epoch_exhausted = 6

abbrev pub rekey_init_v2 : ℕ
rekey_init_v2 = 7

abbrev pub rekey_ack_v2 : ℕ
rekey_ack_v2 = 8

unfoldable pub parse : Bytes → Option ℕ
parse pkt =
    if ltb (length pkt) 3
    then none
    else if get_or pkt 0 0 == prefix && get_or pkt 1 0 == version_v1
    then some (get_or pkt 2 0)
    else none

-- `dst` afterwards.
unfoldable pub encode : ℕ → Bytes → Result Bytes
encode t dst =
    if ltb (length dst) 3 then err short_buffer else ok (prefix ∷ (version_v1 ∷ (t ∷ drop 3 dst)))
