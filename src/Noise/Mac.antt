-- ===== src/Noise/Mac.antt =====
-- src/internal/protocol/noise/mac.go: the version byte and the two MACs around the first handshake
-- message. BLAKE2s is a parameter.
pub mod Appended
use tun_go.Base.{
  ℕ, ◌+◌, ◌-◌, ◌*◌, ◌/◌, ◌<◌, ◌≤◌, ◌≡◌, ◌∙◌, refl, sym, ap, List, [], ◌∷◌, ◌++◌, Bool, true, false,
  Option, none, some, ltb, ◌==◌, if◌then◌else◌, Bytes, length, take, drop, get_or, Result, ok, err,
  random_failed, msg_too_short, unknown_protocol, arith, length-append, take-append_of_length,
  drop-append_of_length,
}
use tun_go.Ip.{same}

-- `blake2s.New256(nil)` and `blake2s.New128(key)` over the bytes that are written to them.
pub record Blake : Type 0 where
  pub hash256 : Bytes → Bytes
  pub hash128 : Bytes → Bytes → Bytes

-- The sizes of the two sums.
pub record BlakeLaws (h : Blake) : Type 0 where
  pub length-hash256 : (b : Bytes) → length (h.hash256 b) ≡ 32
  pub length-hash128 : (key b : Bytes) → length (h.hash128 key b) ≡ 16

abbrev pub protocol_id : Bytes
protocol_id = b'T' ∷ b'u' ∷ b'n' ∷ b'G' ∷ b'o' ∷ []

abbrev pub protocol_version : ℕ
protocol_version = 1

abbrev pub mac1_label : Bytes
mac1_label = b'm' ∷ b'a' ∷ b'c' ∷ b'1' ∷ []

abbrev pub mac2_label : Bytes
mac2_label = b'm' ∷ b'a' ∷ b'c' ∷ b'2' ∷ []

abbrev pub mac1_size : ℕ
mac1_size = 16

abbrev pub mac2_size : ℕ
mac2_size = 16

abbrev pub ephemeral_size : ℕ
ephemeral_size = 32

abbrev pub min_msg1_size : ℕ
min_msg1_size = 80

abbrev pub min_total_size : ℕ
min_total_size = min_msg1_size + mac1_size + mac2_size

abbrev pub min_total_size_with_version : ℕ
min_total_size_with_version = 1 + min_total_size

unfoldable pub extract_noise_msg : Bytes → Option Bytes
extract_noise_msg m =
    if ltb (length m) min_total_size then none else some (take (length m - mac1_size - mac2_size) m)

unfoldable pub extract_client_ephemeral : Bytes → Option Bytes
unfolding extract_noise_msg
extract_client_ephemeral m = elim (extract_noise_msg m) [
  | none ↦ none
  | some noise_msg ↦
      (if ltb (length noise_msg) ephemeral_size then none else some (take ephemeral_size noise_msg))
]

unfoldable pub prepend_version : Bytes → Bytes
prepend_version msg = protocol_version ∷ msg

unfoldable pub check_version : Bytes → Result Bytes
check_version m =
    if ltb (length m) min_total_size_with_version
    then err msg_too_short
    else if get_or m 0 0 == protocol_version
    then ok (drop 1 m)
    else err unknown_protocol

module _ (h : Blake) where
  unfoldable pub derive_mac1_key : Bytes → Bytes
  derive_mac1_key server_pub_key =
      h.hash256 (mac1_label ++ protocol_id ++ protocol_version ∷ server_pub_key)

  unfoldable pub compute_mac1 : Bytes → Bytes → Bytes
  unfolding derive_mac1_key
  compute_mac1 msg1 server_pub_key = h.hash128 (derive_mac1_key server_pub_key) msg1

  -- `msg[msgLen : msgLen+MAC1Size]` and the message before it
  unfoldable pub verify_mac1 : Bytes → Bytes → Bool
  unfolding compute_mac1
  verify_mac1 m server_pub_key =
      if ltb (length m) min_total_size
      then false
      else same (take mac1_size (drop (length m - mac1_size - mac2_size) m))
          (compute_mac1 (take (length m - mac1_size - mac2_size) m) server_pub_key)

  unfoldable pub derive_mac2_key : Bytes → Bytes
  derive_mac2_key cookie = h.hash256 (mac2_label ++ protocol_id ++ protocol_version ∷ cookie)

  unfoldable pub compute_mac2 : Bytes → Bytes → Bytes → Bytes
  unfolding derive_mac2_key
  compute_mac2 msg1 mac1 cookie = h.hash128 (derive_mac2_key cookie) (msg1 ++ mac1)

  unfoldable pub verify_mac2 : Bytes → Bytes → Bool
  unfolding compute_mac2
  verify_mac2 m cookie =
      if ltb (length m) min_total_size
      then false
      else same (drop (length m - mac1_size - mac2_size + mac1_size) m) (
          compute_mac2 (take (length m - mac1_size - mac2_size) m)
            (take mac1_size (drop (length m - mac1_size - mac2_size) m)) cookie)

  -- The sums have 16 bytes, so the copies fill the buffer. `random` is what the random source fills
  -- the rest with, or nothing where it fails.
  unfoldable pub append_macs : Option Bytes → Bytes → Bytes → Bytes → Result Bytes
  unfolding compute_mac1 compute_mac2
  append_macs random msg1 server_pub_key cookie =
      let mac1 : Bytes = compute_mac1 msg1 server_pub_key in
      if ltb 0 (length cookie)
      then ok (msg1 ++ (mac1 ++ compute_mac2 msg1 mac1 cookie))
      else elim random [ none ↦ err random_failed | some r ↦ ok (msg1 ++ (mac1 ++ r)) ]
