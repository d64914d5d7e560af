-- ===== src/Udp/Session/Replay.antt =====
-- The guarantees of one UDP session: delivery, no effect of a rejected packet, no replay.
use tun_go.Base.{
  ℕ, ◌+◌, ◌≤◌, ◌≡◌, refl, sym, ap, ◌∙◌, subst, List, true, false, some, Option-cases, inl, inr,
  dec_lt, Bytes, length, take, drop, Result, ok, err, non_unique_nonce, arith,
}
use tun_go.Aead.{Aead, Laws}
use tun_go.Core.{create_aad, direction_client_to_server, direction_server_to_client}
use tun_go.Core.AadLaws.{create_aad_keeps, length-aad_buf}
use tun_go.Nonce.{Nonce, IsNonce, increment}
use tun_go.Nonce.Counter.{read_low, read_high, Advances, increment-Advances}
use tun_go.Window.{check, accept}
use tun_go.Window.Table.{Arrival, Tracks, Keeps, check_accepted}
use tun_go.Udp.Session.{Session, encrypt, decrypt, seal_with, new_session_with_ciphers}
use tun_go.Udp.Session.Open.{
  Paired, packet, header, length-header, encrypt-packet, decrypt-packet, decrypt_short,
  decrypt_checked, decrypt_refused, open_with-some, open_with-none,
}

module _ {Cipher : Type 0} where
  -- The two sessions that are made from one pair of ciphers with opposite roles are paired in both
  -- directions: same key, session id and direction in the additional data.
  pub new_sessions-Paired :
      (id : Bytes) (c2s s2c : Cipher) (epoch : ℕ)
      → let client = new_session_with_ciphers id c2s s2c false epoch in
        let server = new_session_with_ciphers id s2c c2s true epoch in
        Paired client server × Paired server client
  unfolding new_session_with_ciphers
  new_sessions-Paired id c2s s2c epoch = (
    record {
      one_key = refl;
      sealing = length-aad_buf id direction_client_to_server;
      opening = length-aad_buf id direction_client_to_server;
      prefix = refl;
    },
    record {
      one_key = refl;
      sealing = length-aad_buf id direction_server_to_client;
      opening = length-aad_buf id direction_server_to_client;
      prefix = refl;
    },
  )

module _ {Cipher : Type 0} (a : Aead Cipher) where
  encrypt_state :
      (s : Session Cipher) (cap : ℕ) (p : Bytes) {n : Nonce}
      → length p + 16 ≤ cap
      → 12 ≤ length p
      → increment s.nonce ≡ ok n
      → (encrypt a s cap p).0
        ≡ record s { nonce = n; encryption_aad_buf = create_aad (header n p) s.encryption_aad_buf }
  unfolding encrypt seal_with
  encrypt_state s cap p {n} room long e = rw (e, encrypt) (ground arith)

  -- If two sessions are paired, the sender's nonce is well-formed and not used up, the buffer has
  -- 12 bytes of headroom and 16 of spare capacity, and the receiver's window admits the next
  -- nonce, then what Session.Encrypt returns is decrypted to the payload behind the headroom, and
  -- the two sessions are still paired.
  pub decrypt-encrypt :
      (laws : Laws a) (s r : Session Cipher) (cap : ℕ) (p : Bytes) {n : Nonce}
      → Paired s r
      → IsNonce s.nonce
      → length p + 16 ≤ cap
      → 12 ≤ length p
      → increment s.nonce ≡ ok n
      → check r.nonce_validator n.counter_low n.counter_high ≡ ok tt
      → (c : Bytes) × ((encrypt a s cap p).1 ≡ ok c)
        × ((decrypt a r c).1 ≡ ok (drop 12 p))
        × Paired (encrypt a s cap p).0 (decrypt a r c).0
  decrypt-encrypt laws s r cap p {n} paired v room long e new =
      let c = packet a s n p in
      let next : IsNonce n = (subst (Advances s.nonce) e (increment-Advances s.nonce v)).3 in
      let d = decrypt-packet a laws s r n p paired next new in
      let (l1, p1) =
        create_aad_keeps (header n p) s.encryption_aad_buf (length-header n p) paired.sealing in
      let (l2, p2) =
        create_aad_keeps (header n p) r.decryption_aad_buf (length-header n p) paired.opening in
      (
        c,
        encrypt-packet a s cap p room long e,
        ap (λ t. t.1) d,
        rw (encrypt_state s cap p room long e, d)
            (record {
              one_key = paired.one_key;
              sealing = l1;
              opening = l2;
              prefix = p1 ∙ (paired.prefix ∙ sym p2);
            }),
      )

  -- What a call of `Decrypt` may do.
  abbrev pub Decides : Session Cipher → Bytes → Session Cipher × Result Bytes → Type 0
  Decides r c (r', ok pt) =
      (28 ≤ length c)
      × (check r.nonce_validator (read_low c) (read_high c) ≡ ok tt)
      × (a.unseal r.recv_cipher (take 12 c) (drop 12 c)
            (create_aad (take 12 c) r.decryption_aad_buf)
          ≡ some pt)
      × (r'.nonce_validator ≡ accept r.nonce_validator (read_low c) (read_high c))
  Decides r c (r', err e) =
      (r'.nonce_validator ≡ r.nonce_validator)
      × (r'.nonce ≡ r.nonce)
      × (r'.recv_cipher ≡ r.recv_cipher)
      × (r'.send_cipher ≡ r.send_cipher)

  -- Session.Decrypt commits a nonce to the replay window only for a packet that is long enough,
  -- new to the window and authentic, and then returns the opened payload; on every error the
  -- replay window, the send counter and the ciphers are what they were.
  pub decrypt-Decides : (r : Session Cipher) (c : Bytes) → Decides r c (decrypt a r c)
  decrypt-Decides r c = elim (dec_lt (length c) 28) [
    | yes short ↦ rw (decrypt_short a r c short) (refl, refl, refl, refl)
    | no long ↦ go (check r.nonce_validator (read_low c) (read_high c)) refl (omega arith)
  ]
    where
      opens :
          28 ≤ length c
          → check r.nonce_validator (read_low c) (read_high c) ≡ ok tt
          → Decides r c (decrypt a r c)
      opens long e =
          elim (Option-cases (
            a.unseal r.recv_cipher (take 12 c) (drop 12 c)
              (create_aad (take 12 c) r.decryption_aad_buf))) [
                | inl f ↦
                    rw
                      (
                        decrypt_checked a r c long e,
                        open_with-none a r (read_low c) (read_high c) c f,
                      )
                      (refl, refl, refl, refl)
                | inr (pt, f) ↦
                    rw
                      (
                        decrypt_checked a r c long e,
                        open_with-some a r (read_low c) (read_high c) c f,
                      )
                      (long, e, f, refl)
              ]

      go :
          (x : Result (Unit {0}))
          → check r.nonce_validator (read_low c) (read_high c) ≡ x
          → 28 ≤ length c
          → Decides r c (decrypt a r c)
      go (ok tt) e long = opens long e
      go (err x) e long = rw (decrypt_refused a r c long e) (refl, refl, refl, refl)

  -- If a session's windows track the accepted nonces and the first acceptance drops no window,
  -- then a packet that was decrypted is refused with the non-unique-nonce error when it comes
  -- again, and the session does not change.
  pub decrypt_again :
      (r : Session Cipher) (c : Bytes) (h : List Arrival) {pt : Bytes}
      → Tracks r.nonce_validator.wins h
      → Keeps r.nonce_validator (read_high c)
      → (decrypt a r c).1 ≡ ok pt
      → decrypt a (decrypt a r c).0 c ≡ ((decrypt a r c).0, err non_unique_nonce)
  decrypt_again r c h {pt} t keeps e = go (decrypt a r c) (decrypt-Decides r c) e
    where
      go :
          (x : Session Cipher × Result Bytes)
          → Decides r c x
          → x.1 ≡ ok pt
          → decrypt a x.0 c ≡ (x.0, err non_unique_nonce)
      go (r', ok pt') (long, _, _, v) f = decrypt_refused a r' c long (
          ap (λ w. check w (read_low c) (read_high c)) v
          ∙ check_accepted r.nonce_validator h (read_low c) (read_high c) t keeps)
      go (r', err x) d f = cc
