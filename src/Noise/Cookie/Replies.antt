-- ===== src/Noise/Cookie/Replies.antt =====
-- A cookie from its reply to the message that carries it (cookie.go).
use tun_go.Base.{
  ℕ, ◌+◌, ◌-◌, ◌/◌, ◌%◌, ◌^◌, ◌<◌, ◌≤◌, ◌≡◌, ◌++◌, true, Option, some, Bytes, length, ok, arith,
  length-append, take-append_of_length, drop-append_of_length, ℕ_discrete,
}
use tun_go.Ip.{Addr}
use tun_go.Noise.Mac.{Blake, BlakeLaws, verify_mac2, append_macs}
use tun_go.Noise.Mac.Appended.{verify_mac2-append_macs}
use tun_go.Noise.Cookie.{
  XAead, XAeadLaws, CookieManager, bucket, previous_bucket, bucket_cookie, compute_cookie_value,
  verify_mac2_for_client, create_cookie_reply, decrypt_cookie_reply, is_cookie_reply,
  derive_cookie_encryption_key,
}

module _ (h : Blake) (laws : BlakeLaws h) (cm : CookieManager) where
  length-bucket_cookie : (ip : Addr) (b : ℕ) → length (bucket_cookie h cm ip b) ≡ 16
  unfolding bucket_cookie
  length-bucket_cookie ip b = laws.length-hash128 _ _

  length-compute_cookie_value :
      (now : ℕ) (ip : Addr) → length (compute_cookie_value h cm now ip) ≡ 16
  unfolding compute_cookie_value
  length-compute_cookie_value now ip = length-bucket_cookie ip (bucket now)

module _ (h : Blake) (laws : BlakeLaws h) (x : XAead) (xlaws : XAeadLaws x)
    (cm : CookieManager) where
  opened :
      (nonce ct ephemeral key cookie : Bytes)
      → length nonce ≡ 24
      → length ct ≡ 32
      → x.unseal (derive_cookie_encryption_key h key ephemeral) nonce ct ephemeral ≡ some cookie
      → (is_cookie_reply (nonce ++ ct) ≡ true)
        × (decrypt_cookie_reply h x (nonce ++ ct) ephemeral key ≡ ok cookie)
  unfolding decrypt_cookie_reply is_cookie_reply
  opened nonce ct ephemeral key cookie n c u =
      let size = length-append nonce ct in
      (
        ground (arith, size),
        ground (
          arith,
          size,
          take-append_of_length 24 nonce ct n,
          drop-append_of_length 24 nonce ct n,
          u,
        ),
      )

  -- The client knows a cookie reply by its size and finds the cookie in it.
  pub decrypt-create_cookie_reply :
      (now : ℕ) (nonce : Bytes) (ip : Addr) (ephemeral key reply : Bytes)
      → length nonce ≡ 24
      → create_cookie_reply h x cm now (some nonce) ip ephemeral key ≡ ok reply
      → (is_cookie_reply reply ≡ true)
        × (decrypt_cookie_reply h x reply ephemeral key ≡ ok (compute_cookie_value h cm now ip))
  unfolding create_cookie_reply
  decrypt-create_cookie_reply now nonce ip ephemeral key reply size e =
      let k = derive_cookie_encryption_key h key ephemeral in
      let cookie = compute_cookie_value h cm now ip in
      let at : nonce ++ x.seal k nonce cookie ephemeral ≡ reply = cc in
      rw (← at) (
        opened nonce (x.seal k nonce cookie ephemeral) ephemeral key cookie size
          (omega (
            arith,
            xlaws.length-seal k nonce cookie ephemeral,
            length-compute_cookie_value h laws cm now ip,
          ))
          (xlaws.unseal-seal k nonce cookie ephemeral))

-- The server takes a cookie in the bucket it was made in and in the next one.
pub cookie_accepted :
    (h : Blake) (laws : BlakeLaws h) (cm : CookieManager) (random : Option Bytes) (now later : ℕ)
    (ip : Addr) (msg1 key m : Bytes)
    → 80 ≤ length msg1
    → later < 2 ^ 63
    → now / 120 ≤ later / 120
    → later / 120 ≤ now / 120 + 1
    → append_macs h random msg1 key (compute_cookie_value h cm now ip) ≡ ok m
    → verify_mac2_for_client h cm later m ip ≡ true
unfolding verify_mac2_for_client compute_cookie_value bucket previous_bucket
cookie_accepted h laws cm random now later ip msg1 key m long small from until e =
    elim (ℕ_discrete (later / 120) (now / 120)) [
      | yes same_bucket ↦ ground (arith, valid, same_bucket)
      | no ne ↦
          (let before : (later / 120 + 2 ^ 64 - 1) % 2 ^ 64 ≡ now / 120 = omega (arith, ne) in
            ground (arith, valid, before))
    ]
  where
    valid : verify_mac2 h m (bucket_cookie h cm ip (now / 120)) ≡ true
    valid =
        verify_mac2-append_macs h laws random msg1 key (bucket_cookie h cm ip (now / 120)) m long
          (omega (arith, length-bucket_cookie h laws cm ip (now / 120))) e
