-- ===== src/Udp/Session/Open.antt =====
-- What one session seals the paired session opens, once.
use tun_go.Base.{
  ℕ, zero, suc, ◌+◌, ◌≤◌, ◌<◌, ◌≡◌, refl, sym, ap, ap₂, ◌∙◌, List, [], ◌∷◌, ◌++◌, none, some, Bytes,
  length, take, drop, length-append, take-append_of_length, drop-append_of_length, put_be, Error,
  ok, err, open_failed, cipher_too_short, arith,
}
use tun_go.Aead.{Aead, Laws, nonce_size}
use tun_go.Core.{create_aad}
use tun_go.Core.AadLaws.{create_aad_lem}
use tun_go.Nonce.{Nonce, IsNonce, increment, encode}
use tun_go.Nonce.Counter.{read_low, read_high, read_epoch, read-encode}
use tun_go.Window.{check, accept}
use tun_go.Udp.Session.{Session, seal_with, open_with, encrypt, decrypt}

drop-take {ℓ} : {A : Type ℓ} (n : ℕ) (xs : List A) → drop n (take n xs) ≡ []
drop-take zero xs = refl
drop-take (suc n) [] = refl
drop-take (suc n) (x ∷ xs) = drop-take n xs

-- The 12 bytes that go in front of a packet.
abbrev pub header : Nonce → Bytes → Bytes
header n plaintext = encode n (take nonce_size plaintext)

pub length-header : (n : Nonce) (p : Bytes) → length (header n p) ≡ 12
unfolding encode put_be
length-header n p = omega (arith, ap length (drop-take 12 p))

-- The reader finds the header whatever follows it.
pub read-header :
    (n : Nonce) (p ct : Bytes)
    → IsNonce n
    → (read_low (header n p ++ ct) ≡ n.counter_low)
      × (read_high (header n p ++ ct) ≡ n.counter_high)
      × (read_epoch (header n p ++ ct) ≡ n.epoch)
unfolding encode put_be
read-header n p ct v = read-encode n (take 12 p) v

module _ {Cipher : Type 0} where
  -- `r` opens what `s` seals: one key, and the same session id and direction in the buffers.
  pub record Paired (s r : Session Cipher) : Type 0 where
    pub one_key : r.recv_cipher ≡ s.send_cipher
    pub sealing : length s.encryption_aad_buf ≡ 60
    pub opening : length r.decryption_aad_buf ≡ 60
    pub prefix : take 48 s.encryption_aad_buf ≡ take 48 r.decryption_aad_buf

module _ {Cipher : Type 0} (a : Aead Cipher) where
  -- The packet that `seal_with` makes.
  abbrev pub packet : Session Cipher → Nonce → Bytes → Bytes
  packet s n p =
      header n p
      ++ a.seal s.send_cipher (header n p) (drop nonce_size p)
          (create_aad (header n p) s.encryption_aad_buf)

  pub encrypt-packet :
      (s : Session Cipher) (cap : ℕ) (p : Bytes) {n : Nonce}
      → length p + 16 ≤ cap
      → 12 ≤ length p
      → increment s.nonce ≡ ok n
      → (encrypt a s cap p).1 ≡ ok (packet s n p)
  unfolding encrypt seal_with
  encrypt-packet s cap p {n} room long e = rw (e, encrypt) (ground arith)

  -- The two ways through the tail of `Decrypt`.
  pub open_with-some :
      (s : Session Cipher) (low high : ℕ) (c : Bytes) {pt : Bytes}
      → a.unseal s.recv_cipher (take 12 c) (drop 12 c) (create_aad (take 12 c) s.decryption_aad_buf)
        ≡ some pt
      → open_with a s low high c ≡ (
        record s {
          decryption_aad_buf = create_aad (take 12 c) s.decryption_aad_buf;
          nonce_validator = accept s.nonce_validator low high;
        },
        ok pt,
      )
  unfolding open_with
  open_with-some s low high c e = rw (e, open_with)

  pub open_with-none :
      (s : Session Cipher) (low high : ℕ) (c : Bytes)
      → a.unseal s.recv_cipher (take 12 c) (drop 12 c) (create_aad (take 12 c) s.decryption_aad_buf)
        ≡ none
      → open_with a s low high c ≡ (
        record s { decryption_aad_buf = create_aad (take 12 c) s.decryption_aad_buf },
        err open_failed,
      )
  unfolding open_with
  open_with-none s low high c e = rw (e, open_with)

  pub decrypt_short :
      (s : Session Cipher) (c : Bytes) → length c < 28 → decrypt a s c ≡ (s, err cipher_too_short)
  unfolding decrypt
  decrypt_short s c h = ground arith

  pub decrypt_checked :
      (s : Session Cipher) (c : Bytes)
      → 28 ≤ length c
      → check s.nonce_validator (read_low c) (read_high c) ≡ ok tt
      → decrypt a s c ≡ open_with a s (read_low c) (read_high c) c
  unfolding decrypt
  decrypt_checked s c h e = rw (e, decrypt) (ground arith)

  pub decrypt_refused :
      (s : Session Cipher) (c : Bytes) {x : Error}
      → 28 ≤ length c
      → check s.nonce_validator (read_low c) (read_high c) ≡ err x
      → decrypt a s c ≡ (s, err x)
  unfolding decrypt
  decrypt_refused s c h e = rw (e, decrypt) (ground arith)

  module _ (laws : Laws a) (s r : Session Cipher) (n : Nonce) (p : Bytes)
      (paired : Paired s r) where
    same_aad :
        create_aad (header n p) s.encryption_aad_buf ≡ create_aad (header n p) r.decryption_aad_buf
    same_aad =
        create_aad_lem (header n p) s.encryption_aad_buf (length-header n p) paired.sealing
        ∙ (ap (λ (b : Bytes). b ++ header n p) paired.prefix
            ∙ sym (
                create_aad_lem (header n p) r.decryption_aad_buf (length-header n p)
                  paired.opening))

    front : take 12 (packet s n p) ≡ header n p
    front = take-append_of_length 12 (header n p) _ (length-header n p)

    back :
        drop 12 (packet s n p)
        ≡ a.seal s.send_cipher
            (header n p)
            (drop nonce_size p)
            (create_aad (header n p) s.encryption_aad_buf)
    back = drop-append_of_length 12 (header n p) _ (length-header n p)

    opens :
        a.unseal r.recv_cipher
          (take 12 (packet s n p))
          (drop 12 (packet s n p))
          (create_aad (take 12 (packet s n p)) r.decryption_aad_buf)
        ≡ some (drop 12 p)
    opens =
        rw (front, back, paired.one_key, ← same_aad)
          (laws.unseal-seal s.send_cipher (header n p) (drop 12 p) _)

    pub length-packet : length (packet s n p) ≡ 12 + (length (drop 12 p) + 16)
    length-packet = omega (
      arith,
      length-append (header n p) (
          a.seal s.send_cipher (header n p) (drop nonce_size p)
            (create_aad (header n p) s.encryption_aad_buf)),
      length-header n p,
      laws.length-seal s.send_cipher (header n p) (drop 12 p)
          (create_aad (header n p) s.encryption_aad_buf),
    )

    -- What the receiver is after it opened the packet.
    abbrev pub opened : Session Cipher
    opened = record r {
      decryption_aad_buf = create_aad (header n p) r.decryption_aad_buf;
      nonce_validator = accept r.nonce_validator n.counter_low n.counter_high;
    }

    pub decrypt-packet :
        IsNonce n
        → check r.nonce_validator n.counter_low n.counter_high ≡ ok tt
        → decrypt a r (packet s n p) ≡ (opened, ok (drop 12 p))
    decrypt-packet v new =
        let (low, high, _) = read-header n p sealed v in
        decrypt_checked r (packet s n p) (omega (arith, length-packet)) (rw (low, high) new)
        ∙ (ap₂ (λ l h. open_with a r l h (packet s n p)) low high
            ∙ (open_with-some r n.counter_low n.counter_high (packet s n p) opens
                ∙ ap
                    (λ (f : Bytes). (
                      record r {
                        decryption_aad_buf = create_aad f r.decryption_aad_buf;
                        nonce_validator = accept r.nonce_validator n.counter_low n.counter_high;
                      },
                      ok (drop 12 p),
                    ))
                    front))
      where
        sealed : Bytes
        sealed =
            a.seal s.send_cipher (header n p) (drop nonce_size p)
              (create_aad (header n p) s.encryption_aad_buf)
