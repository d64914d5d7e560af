-- ===== src/Noise/Exchange/Gate.antt =====
-- How an honest client passes the gate of a server under load (ik_handshake.go and cookie.go).
use tun_go.Base.{
  ℕ, ◌+◌, ◌/◌, ◌^◌, ◌<◌, ◌≤◌, ◌≡◌, ◌∙◌, refl, sym, ap, true, Option, none, some, Bytes, length,
  take, ok, arith,
}
use tun_go.Ip.{Addr}
use tun_go.Noise.Mac.{Blake, BlakeLaws, extract_client_ephemeral, append_macs}
use tun_go.Noise.Mac.Appended.{verify_mac1-append_macs}
use tun_go.Noise.Cookie.{
  XAead, XAeadLaws, CookieManager, compute_cookie_value, verify_mac2_for_client,
  create_cookie_reply, decrypt_cookie_reply, is_cookie_reply,
}
use tun_go.Noise.Cookie.Replies.{decrypt-create_cookie_reply, cookie_accepted}
use tun_go.Noise.Handshake.{Transport, IkHandshake, needs_cookie}
use tun_go.Noise.Responder.{check_cookie, enforce_cookie_if_needed}

module _ {HS T : Type 0} (blake : Blake) (laws : BlakeLaws blake) (x : XAead)
    (tr : Transport T) where
  module _ (server : IkHandshake HS) (now : ℕ) (random : Option Bytes) (t : T) where
    -- A server that asks for no cookie lets every message through.
    pub gate_idle :
        (m : Bytes)
        → needs_cookie server ≡ none
        → enforce_cookie_if_needed blake x tr server now random t m ≡ (t, none)
    unfolding enforce_cookie_if_needed
    gate_idle m e = rw (e, enforce_cookie_if_needed) refl

    gate_proven :
        (cm : CookieManager) (ip : Addr) (m ephemeral : Bytes)
        → needs_cookie server ≡ some cm
        → tr.remote_addr t ≡ some ip
        → extract_client_ephemeral m ≡ some ephemeral
        → verify_mac2_for_client blake cm now m ip ≡ true
        → enforce_cookie_if_needed blake x tr server now random t m ≡ (t, none)
    unfolding enforce_cookie_if_needed check_cookie
    gate_proven cm ip m ephemeral n k e v = ground (arith, n, k, e, v)

ephemeral_of :
    (blake : Blake) (laws : BlakeLaws blake) (random : Option Bytes) (msg1 key cookie m : Bytes)
    → 80 ≤ length msg1
    → ((r : Bytes) → random ≡ some r → length r ≡ 16)
    → append_macs blake random msg1 key cookie ≡ ok m
    → extract_client_ephemeral m ≡ some (take 32 msg1)
unfolding extract_client_ephemeral
ephemeral_of blake laws random msg1 key cookie m long sized e =
    ground (arith, (verify_mac1-append_macs blake laws random msg1 key cookie m long sized e).1)

-- Over a hash and a sealing with their documented sizes, where unsealing undoes sealing, with a
-- nonce of 24 bytes and a first message of at least 80: a client that gets the cookie reply knows
-- it by its size and decrypts the cookie that the server computed, and the message with the MAC of
-- that cookie, from the same address, passes the gate of the loaded server, in the time bucket of
-- the reply and in the next one.
pub retry_passes :
    {HS T : Type 0} (blake : Blake) (laws : BlakeLaws blake) (x : XAead) (xlaws : XAeadLaws x)
    (tr : Transport T) (server : IkHandshake HS) (cm : CookieManager) (ip : Addr) (now later : ℕ)
    (nonce filling ephemeral key reply msg1 m : Bytes) (random : Option Bytes) (t : T)
    → length nonce ≡ 24
    → length filling ≡ 16
    → 80 ≤ length msg1
    → later < 2 ^ 63
    → now / 120 ≤ later / 120
    → later / 120 ≤ now / 120 + 1
    → create_cookie_reply blake x cm now (some nonce) ip ephemeral key ≡ ok reply
    → append_macs blake (some filling) msg1 key (compute_cookie_value blake cm now ip) ≡ ok m
    → needs_cookie server ≡ some cm
    → tr.remote_addr t ≡ some ip
    → (is_cookie_reply reply ≡ true)
      × (decrypt_cookie_reply blake x reply ephemeral key
          ≡ ok (compute_cookie_value blake cm now ip))
      × (enforce_cookie_if_needed blake x tr server later random t m ≡ (t, none))
retry_passes blake laws x xlaws tr server cm ip now later nonce filling ephemeral key reply msg1 m
      random t n f long small from until made sent needs known =
    let (seen, found) =
      decrypt-create_cookie_reply blake laws x xlaws cm now nonce ip ephemeral key reply n made in
    (
      seen,
      found,
      gate_proven blake laws x tr server later random t cm ip m (take 32 msg1) needs known
          (ephemeral_of blake laws (some filling) msg1 key (compute_cookie_value blake cm now ip) m
            long sized sent)
          (cookie_accepted blake laws cm (some filling) now later ip msg1 key m long small from
            until sent),
    )
  where
    sized : (r : Bytes) → some filling ≡ some r → length r ≡ 16
    sized r e = let same_bytes : filling ≡ r = cc in ap length (sym same_bytes) ∙ f
