-- ===== src/Tcp/Session/Stream.antt =====
-- Two paired TCP sessions: each message opens in order, and what does not open does no harm.
use tun_go.Base.{
  ◌+◌, ◌≤◌, ◌≡◌, refl, sym, ap, ◌∙◌, List, [], ◌∷◌, none, inl, inr, Bytes, length, Option-cases,
  Result, Error, ok, err, open_failed, arith, map,
}
use tun_go.Aead.{Aead, Laws, overhead}
use tun_go.Core.{create_aad}
use tun_go.Core.AadLaws.{create_aad_keeps}
use tun_go.Nonce.{Nonce, IsNonce, increment, encode, peek_encode}
use tun_go.Nonce.Counter.{peek_encode_lem, counter, increment-Advances, Advances, last_counter}
use tun_go.Tcp.Session.{Session, encrypt, decrypt, open_with}
use tun_go.Tcp.Session.Step.{
  length-encode, Paired, sealed, opened, peeked, decrypt_ok, frame_delivered,
}

module _ {Cipher : Type 0} (a : Aead Cipher) where
  -- The receiver after a frame that did not open.
  abbrev tried : Session Cipher → Nonce → Session Cipher
  tried r n = record r {
    decryption_nonce_buf = encode n r.decryption_nonce_buf;
    decryption_aad_buf = create_aad (encode n r.decryption_nonce_buf) r.decryption_aad_buf;
  }

  decrypt_failed :
      (r : Session Cipher) (c : Bytes) {n : Nonce}
      → increment r.recv_nonce ≡ ok n
      → a.unseal r.recv_cipher
          (encode n r.decryption_nonce_buf)
          c
          (create_aad (encode n r.decryption_nonce_buf) r.decryption_aad_buf)
        ≡ none
      → decrypt a r c ≡ (tried r n, err open_failed)
  unfolding decrypt open_with
  decrypt_failed r c e f = rw (peeked a r e, decrypt, f, open_with) refl

  decrypt_exhausted :
      (r : Session Cipher) (c : Bytes) {e' : Error}
      → increment r.recv_nonce ≡ err e'
      → decrypt a r c ≡ (r, err e')
  unfolding decrypt
  decrypt_exhausted r c {e'} e =
      let stuck : peek_encode r.recv_nonce r.decryption_nonce_buf ≡ err e' =
        peek_encode_lem r.recv_nonce r.decryption_nonce_buf ∙ rw e refl in
      rw (stuck, decrypt) refl

  tried-Paired : (s r : Session Cipher) (n : Nonce) → Paired s r → Paired s (tried r n)
  tried-Paired s r n v =
      let open_size : length (encode n r.decryption_nonce_buf) ≡ 12 =
        length-encode n r.decryption_nonce_buf v.opening_nonce in
      let (opening, open_prefix) =
        create_aad_keeps (encode n r.decryption_nonce_buf) r.decryption_aad_buf open_size
          v.opening in
      record {
        one_key = v.one_key;
        in_step = v.in_step;
        sealing = v.sealing;
        opening = opening;
        prefix = v.prefix ∙ sym open_prefix;
        sealing_nonce = v.sealing_nonce;
        opening_nonce = open_size;
      }

  -- A frame that Decrypt refuses, whatever its bytes, does not put the receiver out of step: the
  -- sessions are still paired, so that the sender's next frame opens.
  pub refused_frame-Paired :
      (s r : Session Cipher) (c : Bytes) {e : Error}
      → Paired s r
      → (decrypt a r c).1 ≡ err e
      → Paired s (decrypt a r c).0
  refused_frame-Paired s r c {e} v failed = go (increment r.recv_nonce) refl
    where
      go : (q : Result Nonce) → increment r.recv_nonce ≡ q → Paired s (decrypt a r c).0
      go (err x) p = rw (decrypt_exhausted r c p) v
      go (ok n) p =
          elim (Option-cases (
            a.unseal r.recv_cipher (encode n r.decryption_nonce_buf) c
              (create_aad (encode n r.decryption_nonce_buf) r.decryption_aad_buf))) [
                | inl f ↦ rw (decrypt_failed r c p f) (tried-Paired s r n v)
                | inr (m, f) ↦
                    (let won : (decrypt a r c).1 ≡ ok m =
                        ap (λ (x : Session Cipher × Result Bytes). x.1) (decrypt_ok a r c p f) in
                      cc)
              ]

  -- The messages go through one at a time, each in a buffer with just the spare capacity that
  -- `Encrypt` wants; what the peer reads of them, in order.
  unfoldable pub transmit : Session Cipher → Session Cipher → List Bytes → List (Result Bytes)
  transmit s r [] = []
  transmit s r (p ∷ ps) =
      let (s', sent) = encrypt a s (length p + overhead) p in
      elim sent [
        | err e ↦ err e ∷ transmit s' r ps
        | ok c ↦ (let (r', got) = decrypt a r c in got ∷ transmit s' r' ps)
      ]

  transmit_step :
      (s r : Session Cipher) (p : Bytes) (ps : List Bytes) {s' r' : Session Cipher} {c : Bytes}
      → encrypt a s (length p + 16) p ≡ (s', ok c)
      → decrypt a r c ≡ (r', ok p)
      → transmit s r (p ∷ ps) ≡ ok p ∷ transmit s' r' ps
  unfolding transmit
  transmit_step s r p ps {s'} e f =
      let state : (encrypt a s (length p + 16) p).0 ≡ s' =
        ap (λ (x : Session Cipher × Result Bytes). x.0) e in
      rw (e, transmit, f, state) refl

  -- A stream of messages between paired TCP sessions arrives whole and in order, if the sender's
  -- nonce is well-formed and its 80-bit counter lasts for all of them.
  pub stream_delivered :
      (laws : Laws a) (s r : Session Cipher) (ps : List Bytes)
      → Paired s r
      → IsNonce s.send_nonce
      → counter s.send_nonce + length ps ≤ last_counter
      → transmit s r ps ≡ map ok ps
  unfolding transmit
  stream_delivered laws s r [] v w lasts = refl
  stream_delivered laws s r (p ∷ ps) v w lasts =
      go (increment s.send_nonce) refl (increment-Advances s.send_nonce w)
        (λ s' r'. stream_delivered laws s' r' ps)
    where
      go :
          (q : Result Nonce)
          → increment s.send_nonce ≡ q
          → Advances s.send_nonce q
          → ((s' r' : Session Cipher)
              → Paired s' r'
              → IsNonce s'.send_nonce
              → counter s'.send_nonce + length ps ≤ last_counter
              → transmit s' r' ps ≡ map ok ps)
          → transmit s r (p ∷ ps) ≡ map ok (p ∷ ps)
      go (err x) e (stuck, _) ih = absurd (omega arith)
      go (ok n) e (_, next, _, fits) ih =
          let (c, enc, dec, w') = frame_delivered a laws s r (length p + 16) p v (omega arith) e in
          transmit_step s r p ps enc dec
          ∙ ap (◌∷◌ (ok p)) (ih (sealed a s n) (opened a r n) w' fits (omega arith))
