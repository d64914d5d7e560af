-- ===== src/Noise/Cookie.antt =====
-- src/internal/protocol/noise/cookie.go: the cookies that a server under load asks for. BLAKE2s and
-- XChaCha20-Poly1305 are parameters, and the clock's Unix seconds an argument. `RotateSecret` is one
-- step, and what the random source fills a buffer with is an argument, nothing where it fails.
pub mod Replies
use tun_go.Base.{
  ℕ, zero, suc, ◌+◌, ◌-◌, ◌*◌, ◌/◌, ◌%◌, ◌^◌, ◌<◌, ◌≤◌, ◌≡◌, List, [], ◌∷◌, ◌++◌, Bool, true, false,
  Option, none, some, ltb, ◌==◌, if◌then◌else◌, Bytes, length, take, drop, replicate, Result, ok,
  err, random_failed, invalid_cookie_reply, open_failed,
}
use tun_go.Ip.{Addr, v4, v6, same}
use tun_go.Noise.Mac.{Blake, protocol_id, protocol_version, verify_mac2}

-- `chacha20poly1305.NewX(key)`: sealing and opening under a key of 32 bytes.
pub record XAead : Type 0 where
  pub seal : Bytes → Bytes → Bytes → Bytes → Bytes
  pub unseal : Bytes → Bytes → Bytes → Bytes → Option Bytes

pub record XAeadLaws (x : XAead) : Type 0 where
  pub length-seal :
      (key nonce plain ad : Bytes) → length (x.seal key nonce plain ad) ≡ length plain + 16
  pub unseal-seal :
      (key nonce plain ad : Bytes) → x.unseal key nonce (x.seal key nonce plain ad) ad ≡ some plain

abbrev pub cookie_size : ℕ
cookie_size = 16

abbrev pub cookie_nonce_size : ℕ
cookie_nonce_size = 24

abbrev pub cookie_reply_size : ℕ
cookie_reply_size = cookie_nonce_size + cookie_size + 16

abbrev pub cookie_bucket_seconds : ℕ
cookie_bucket_seconds = 120

abbrev pub cookie_label : Bytes
cookie_label = b'c' ∷ b'o' ∷ b'o' ∷ b'k' ∷ b'i' ∷ b'e' ∷ []

-- `binary.LittleEndian.AppendUint64` for `n` = 8: the bytes appended.
unfoldable pub put_le : ℕ → ℕ → Bytes
put_le zero v = []
put_le (suc n) v = v % 256 ∷ put_le n (v / 256)

-- `netip.Addr.As16`
unfoldable pub as16 : Addr → Bytes
as16 (v4 b) = replicate 10 0 ++ (255 ∷ 255 ∷ b)
as16 (v6 b) = b

pub record CookieManager : Type 0 where
  pub secret : Bytes

-- `uint64(now / CookieBucketSeconds)` and `uint64(now / CookieBucketSeconds - 1)`
unfoldable pub bucket : ℕ → ℕ
bucket now = now / cookie_bucket_seconds

unfoldable pub previous_bucket : ℕ → ℕ
previous_bucket now = (now / cookie_bucket_seconds + 2 ^ 64 - 1) % 2 ^ 64

module _ (h : Blake) where
  -- The keyed sum over the address and a bucket, written out three times in the source.
  unfoldable pub bucket_cookie : CookieManager → Addr → ℕ → Bytes
  bucket_cookie cm ip b = h.hash128 cm.secret (as16 ip ++ put_le 8 b)

  unfoldable pub compute_cookie_value : CookieManager → ℕ → Addr → Bytes
  compute_cookie_value cm now ip = bucket_cookie cm ip (bucket now)

  unfoldable pub derive_cookie_encryption_key : Bytes → Bytes → Bytes
  derive_cookie_encryption_key server_pub_key client_ephemeral =
      h.hash256
        (cookie_label ++ protocol_id ++ protocol_version ∷ (server_pub_key ++ client_ephemeral))

  unfoldable pub validate_cookie : CookieManager → ℕ → Addr → Bytes → Bool
  unfolding compute_cookie_value
  validate_cookie cm now ip cookie =
      if same cookie (compute_cookie_value cm now ip)
      then true
      else same cookie (bucket_cookie cm ip (previous_bucket now))

  unfoldable pub verify_mac2_for_client : CookieManager → ℕ → Bytes → Addr → Bool
  unfolding compute_cookie_value
  verify_mac2_for_client cm now m ip =
      if verify_mac2 h m (compute_cookie_value cm now ip)
      then true
      else verify_mac2 h m (bucket_cookie cm ip (previous_bucket now))

module _ (h : Blake) (x : XAead) where
  unfoldable pub create_cookie_reply :
      CookieManager → ℕ → Option Bytes → Addr → Bytes → Bytes → Result Bytes
  unfolding derive_cookie_encryption_key
  create_cookie_reply cm now random ip client_ephemeral server_pub_key = elim random [
    | none ↦ err random_failed
    | some nonce ↦ ok (
        nonce
        ++ x.seal (derive_cookie_encryption_key h server_pub_key client_ephemeral) nonce
            (compute_cookie_value h cm now ip) client_ephemeral)
  ]

  unfoldable pub decrypt_cookie_reply : Bytes → Bytes → Bytes → Result Bytes
  unfolding derive_cookie_encryption_key
  decrypt_cookie_reply reply client_ephemeral server_pub_key =
      if ltb (length reply) (cookie_nonce_size + 16 + 1)
      then err invalid_cookie_reply
      else elim (x.unseal (derive_cookie_encryption_key h server_pub_key client_ephemeral)
          (take cookie_nonce_size reply) (drop cookie_nonce_size reply) client_ephemeral) [
            | none ↦ err open_failed
            | some cookie ↦ ok cookie
          ]

unfoldable pub rotate_secret : CookieManager → Option Bytes → CookieManager × Result ℕ
rotate_secret cm none = (cm, err random_failed)
rotate_secret cm (some secret) = (record { secret = secret }, ok 0)

unfoldable pub is_cookie_reply : Bytes → Bool
is_cookie_reply response = length response == cookie_reply_size
