-- ===== src/Tcp/Crypto/Frames.antt =====
-- Frames between two TCP peers.
use tun_go.Base.{
  ℕ, ◌+◌, ◌-◌, ◌≤◌, ◌<◌, ◌≡◌, refl, ap, ◌∙◌, ◌++◌, some, Bytes, length, length-append, take, drop,
  take-append_of_length, drop-append_of_length, put_be, be, ltb, false, ◌^◌, length-drop, be-put_be,
  length-put_be, get_elem?, set, Result, ok, arith,
}
use tun_go.Aead.{Aead, Laws}
use tun_go.Nonce.{Nonce, increment}
use tun_go.Tcp.Session
use tun_go.Tcp.Session.{Session}
use tun_go.Tcp.Session.Step.{Paired, frame_delivered}
use tun_go.Tcp.Crypto.{Crypto, encrypt, encrypt_at, decrypt, decrypt_at, receive_session_for_epoch}

module _ {Cipher : Type 0} (a : Aead Cipher) where
  encrypt_at_ok :
      (c : Crypto Cipher) (cap p : ℕ) (buf : Bytes) {s s' : Session Cipher} {ct : Bytes}
      → get_elem? c.sessions p ≡ some s
      → Session.encrypt a s (cap - 2) (drop 2 buf) ≡ (s', ok ct)
      → encrypt_at a c p cap buf
        ≡ (record c { sessions = set c.sessions p s' }, ok (put_be 2 c.send.epoch ++ ct))
  unfolding encrypt_at
  encrypt_at_ok c cap p buf {s} {s'} e f =
      let state : (Session.encrypt a s (cap - 2) (drop 2 buf)).0 ≡ s' =
        ap (λ (x : Session Cipher × Result Bytes). x.0) f in
      rw (e, encrypt_at, f, state) refl

  encrypt_frame :
      (c : Crypto Cipher) (cap p : ℕ) (buf : Bytes)
      → 2 ≤ length buf
      → length buf + 16 ≤ cap
      → c.send.session ≡ some p
      → encrypt a c cap buf ≡ encrypt_at a c p cap buf
  unfolding encrypt
  encrypt_frame c cap p buf long room e = ground arith

  decrypt_at_ok :
      (c : Crypto Cipher) (p : ℕ) (ct : Bytes) {s s' : Session Cipher} {m : Bytes}
      → get_elem? c.sessions p ≡ some s
      → Session.decrypt a s ct ≡ (s', ok m)
      → decrypt_at a c p ct ≡ (record c { sessions = set c.sessions p s' }, ok m)
  unfolding decrypt_at
  decrypt_at_ok c p ct e f = rw (e, decrypt_at, f) refl

  decrypt_frame :
      (c : Crypto Cipher) (epoch p : ℕ) (ct : Bytes)
      → epoch < 2 ^ 16
      → receive_session_for_epoch c epoch ≡ some p
      → decrypt a c (put_be 2 epoch ++ ct) ≡ decrypt_at a c p ct
  unfolding decrypt
  decrypt_frame c epoch p ct fits e =
      let tag : take 2 (put_be 2 epoch ++ ct) ≡ put_be 2 epoch =
        take-append_of_length 2 (put_be 2 epoch) ct (length-put_be 2 epoch) in
      let body : drop 2 (put_be 2 epoch ++ ct) ≡ ct =
        drop-append_of_length 2 (put_be 2 epoch) ct (length-put_be 2 epoch) in
      let read : be (put_be 2 epoch) ≡ epoch = be-put_be 2 epoch fits in
      let long : ltb (length (put_be 2 epoch ++ ct)) 2 ≡ false =
        ground (arith, length-append (put_be 2 epoch) ct, length-put_be 2 epoch) in
      rw (long, tag, read, e, decrypt, body) refl

  -- Delivery between two TCP peers. If the sender's send session and the session that the receiver
  -- keeps for that epoch are paired, the sender's counter is not used up, and the buffer has the
  -- two bytes of headroom and 16 of spare capacity, then Encrypt succeeds, Decrypt at the peer
  -- returns the payload, and the two sessions that are stored back are still paired.
  pub tcp_frame_delivered :
      (laws : Laws a) (c r : Crypto Cipher) (cap p q : ℕ) (buf : Bytes) {s t : Session Cipher}
      {n : Nonce}
      → 2 ≤ length buf
      → length buf + 16 ≤ cap
      → c.send.session ≡ some p
      → c.send.epoch < 2 ^ 16
      → receive_session_for_epoch r c.send.epoch ≡ some q
      → get_elem? c.sessions p ≡ some s
      → get_elem? r.sessions q ≡ some t
      → Paired s t
      → increment s.send_nonce ≡ ok n
      → (frame : Bytes) × (s' : Session Cipher) × (t' : Session Cipher) × (encrypt a c cap buf
          ≡ (record c { sessions = set c.sessions p s' }, ok frame))
        × (decrypt a r frame ≡ (record r { sessions = set r.sessions q t' }, ok (drop 2 buf)))
        × Paired s' t'
  tcp_frame_delivered laws c r cap p q buf {s} {t} {n} long room e fits f g h v inc =
      let (ct, enc, dec, w) =
        frame_delivered a laws s t (cap - 2) (drop 2 buf) v (omega (arith, length-drop 2 buf))
          inc in
      (
        put_be 2 c.send.epoch ++ ct,
        _,
        _,
        encrypt_frame c cap p buf long room e ∙ encrypt_at_ok c cap p buf g enc,
        decrypt_frame r c.send.epoch q ct fits f ∙ decrypt_at_ok r q ct h dec,
        w,
      )
