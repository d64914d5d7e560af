-- ===== src/Tcp/Session/Step.antt =====
-- One message between two paired TCP sessions.
use tun_go.Base.{
  ℕ, zero, suc, ◌+◌, ◌≤◌, ◌≡◌, refl, sym, ap, ap₂, ◌∙◌, List, [], ◌∷◌, ◌++◌, true, false, some,
  Bytes, length, take, drop, put_be, length-drop, ok, arith,
}
use tun_go.Aead.{Aead, Laws}
use tun_go.Core.{create_aad, direction_client_to_server, direction_server_to_client}
use tun_go.Core.AadLaws.{create_aad_lem, create_aad_keeps, length-aad_buf}
use tun_go.Nonce.{Nonce, increment, encode, peek_encode}
use tun_go.Nonce.Counter.{peek_encode_lem}
use tun_go.Tcp.Session.{
  Session, encrypt, decrypt, open_with, commit_nonce, new_session_with_ciphers,
}

pub drop_all {ℓ} : {A : Type ℓ} (n : ℕ) (xs : List A) → length xs ≡ n → drop n xs ≡ []
drop_all zero [] e = refl
drop_all zero (x ∷ xs) e = absurd (omega arith)
drop_all (suc n) [] e = refl
drop_all (suc n) (x ∷ xs) e = drop_all n xs (omega arith)

pub length-encode : (n : Nonce) (buf : Bytes) → length buf ≡ 12 → length (encode n buf) ≡ 12
unfolding encode put_be
length-encode n buf e = omega (arith, length-drop 12 buf)

-- A full buffer is overwritten, whatever it held.
pub encode-forgets :
    (n : Nonce) (buf buf' : Bytes)
    → length buf ≡ 12
    → length buf' ≡ 12
    → encode n buf ≡ encode n buf'
unfolding encode
encode-forgets n buf buf' e f = rw (drop_all 12 buf e, drop_all 12 buf' f) refl

module _ {Cipher : Type 0} where
  -- `r` is in step to open what `s` seals next.
  pub record Paired (s r : Session Cipher) : Type 0 where
    pub one_key : r.recv_cipher ≡ s.send_cipher
    pub in_step : r.recv_nonce ≡ s.send_nonce
    pub sealing : length s.encryption_aad_buf ≡ 60
    pub opening : length r.decryption_aad_buf ≡ 60
    pub prefix : take 48 s.encryption_aad_buf ≡ take 48 r.decryption_aad_buf
    pub sealing_nonce : length s.encryption_nonce_buf ≡ 12
    pub opening_nonce : length r.decryption_nonce_buf ≡ 12

  -- The two TCP sessions of a fresh connection, with opposite roles and one pair of ciphers, are
  -- paired in both directions.
  pub tcp_sessions-Paired :
      (id : Bytes) (c2s s2c : Cipher) (epoch : ℕ)
      → Paired
          (new_session_with_ciphers id c2s s2c false epoch)
          (new_session_with_ciphers id s2c c2s true epoch)
        × Paired
            (new_session_with_ciphers id s2c c2s true epoch)
            (new_session_with_ciphers id c2s s2c false epoch)
  unfolding new_session_with_ciphers
  tcp_sessions-Paired id c2s s2c epoch = (
    record {
      one_key = refl;
      in_step = refl;
      sealing = length-aad_buf id direction_client_to_server;
      opening = length-aad_buf id direction_client_to_server;
      prefix = refl;
      sealing_nonce = refl;
      opening_nonce = refl;
    },
    record {
      one_key = refl;
      in_step = refl;
      sealing = length-aad_buf id direction_server_to_client;
      opening = length-aad_buf id direction_server_to_client;
      prefix = refl;
      sealing_nonce = refl;
      opening_nonce = refl;
    },
  )

module _ {Cipher : Type 0} (a : Aead Cipher) where
  -- What the sender is after it sealed a message under `n`, and the receiver after it opened it.
  abbrev pub sealed : Session Cipher → Nonce → Session Cipher
  sealed s n = record s {
    send_nonce = n;
    encryption_nonce_buf = encode n s.encryption_nonce_buf;
    encryption_aad_buf = create_aad (encode n s.encryption_nonce_buf) s.encryption_aad_buf;
  }

  abbrev pub opened : Session Cipher → Nonce → Session Cipher
  opened r n = record r {
    recv_nonce = n;
    decryption_nonce_buf = encode n r.decryption_nonce_buf;
    decryption_aad_buf = create_aad (encode n r.decryption_nonce_buf) r.decryption_aad_buf;
  }

  abbrev pub frame : Session Cipher → Nonce → Bytes → Bytes
  frame s n p =
      a.seal s.send_cipher (encode n s.encryption_nonce_buf) p
        (create_aad (encode n s.encryption_nonce_buf) s.encryption_aad_buf)

  pub encrypt_ok :
      (s : Session Cipher) (cap : ℕ) (p : Bytes) {n : Nonce}
      → length p + 16 ≤ cap
      → increment s.send_nonce ≡ ok n
      → encrypt a s cap p ≡ (sealed s n, ok (frame s n p))
  unfolding encrypt
  encrypt_ok s cap p room e = rw (e, encrypt) (ground arith)

  pub peeked :
      (r : Session Cipher) {n : Nonce}
      → increment r.recv_nonce ≡ ok n
      → peek_encode r.recv_nonce r.decryption_nonce_buf ≡ ok (encode n r.decryption_nonce_buf)
  peeked r e = peek_encode_lem r.recv_nonce r.decryption_nonce_buf ∙ rw e refl

  pub decrypt_ok :
      (r : Session Cipher) (c : Bytes) {n : Nonce} {p : Bytes}
      → increment r.recv_nonce ≡ ok n
      → a.unseal r.recv_cipher
          (encode n r.decryption_nonce_buf)
          c
          (create_aad (encode n r.decryption_nonce_buf) r.decryption_aad_buf)
        ≡ some p
      → decrypt a r c ≡ (opened r n, ok p)
  unfolding decrypt open_with commit_nonce
  decrypt_ok r c e f = rw (peeked r e, decrypt, f, open_with, e, commit_nonce) refl

  pub sealed-opened-Paired :
      (s r : Session Cipher) (n : Nonce) → Paired s r → Paired (sealed s n) (opened r n)
  sealed-opened-Paired s r n v =
      let seal_size : length (encode n s.encryption_nonce_buf) ≡ 12 =
        length-encode n s.encryption_nonce_buf v.sealing_nonce in
      let open_size : length (encode n r.decryption_nonce_buf) ≡ 12 =
        length-encode n r.decryption_nonce_buf v.opening_nonce in
      let (sealing, seal_prefix) =
        create_aad_keeps (encode n s.encryption_nonce_buf) s.encryption_aad_buf seal_size
          v.sealing in
      let (opening, open_prefix) =
        create_aad_keeps (encode n r.decryption_nonce_buf) r.decryption_aad_buf open_size
          v.opening in
      record {
        one_key = v.one_key;
        in_step = refl;
        sealing = sealing;
        opening = opening;
        prefix = seal_prefix ∙ (v.prefix ∙ sym open_prefix);
        sealing_nonce = seal_size;
        opening_nonce = open_size;
      }

  pub same_aad :
      (s r : Session Cipher) (n : Nonce)
      → Paired s r
      → create_aad (encode n s.encryption_nonce_buf) s.encryption_aad_buf
        ≡ create_aad (encode n r.decryption_nonce_buf) r.decryption_aad_buf
  same_aad s r n v =
      create_aad_lem (encode n s.encryption_nonce_buf) s.encryption_aad_buf
        (length-encode n s.encryption_nonce_buf v.sealing_nonce) v.sealing
      ∙ (ap₂ (λ (x y : Bytes). x ++ y) v.prefix
            (encode-forgets n s.encryption_nonce_buf r.decryption_nonce_buf v.sealing_nonce
              v.opening_nonce)
          ∙ sym (
              create_aad_lem (encode n r.decryption_nonce_buf) r.decryption_aad_buf
                (length-encode n r.decryption_nonce_buf v.opening_nonce) v.opening))

  -- If two TCP sessions are paired, the sender's counter is not used up, and the buffer has 16
  -- bytes of spare capacity, then what Encrypt returns opens at the peer to the same plaintext,
  -- and the two sessions are still paired.
  pub frame_delivered :
      (laws : Laws a) (s r : Session Cipher) (cap : ℕ) (p : Bytes) {n : Nonce}
      → Paired s r
      → length p + 16 ≤ cap
      → increment s.send_nonce ≡ ok n
      → (c : Bytes) × (encrypt a s cap p ≡ (sealed s n, ok c))
        × (decrypt a r c ≡ (opened r n, ok p))
        × Paired (sealed s n) (opened r n)
  frame_delivered laws s r cap p {n} v room e =
      let opens : a.unseal r.recv_cipher (encode n r.decryption_nonce_buf) (frame s n p)
            (create_aad (encode n r.decryption_nonce_buf) r.decryption_aad_buf)
          ≡ some p =
        rw
          (
            v.one_key,
            ← same_aad s r n v,
            ← encode-forgets n s.encryption_nonce_buf r.decryption_nonce_buf v.sealing_nonce
                v.opening_nonce,
          )
          (laws.unseal-seal s.send_cipher (encode n s.encryption_nonce_buf) p _) in
      (
        frame s n p,
        encrypt_ok s cap p room e,
        decrypt_ok r (frame s n p) (ap increment v.in_step ∙ e) opens,
        sealed-opened-Paired s r n v,
      )
