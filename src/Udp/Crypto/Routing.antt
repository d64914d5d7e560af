-- ===== src/Udp/Crypto/Routing.antt =====
-- What `Decrypt` of `udp.Crypto` asks of a packet, and what it changes (udp/crypto.go).
use tun_go.Base.{
  ◌≤◌, ◌<◌, ◌≡◌, ◌≢◌, ◌⊎◌, inl, inr, refl, ap, ◌∙◌, Option, none, some, dec_lt, ℕ_discrete, ==_ne,
  length, take, drop, be, Bytes, Result, ok, err, cipher_too_short, unknown_route_id, unknown_epoch,
  arith,
}
use tun_go.Aead.{Aead}
use tun_go.Udp.Session
use tun_go.Udp.Session.{Session}
use tun_go.Udp.Session.Replay.{Decides, decrypt-Decides}
use tun_go.Udp.Ring.{resolve}
use tun_go.Udp.Crypto.{Crypto, decrypt, decrypt_routed, decrypt_session, read_route_id}
use tun_go.Udp.Crypto.Epochs.{Inv}
use tun_go.Udp.Crypto.Packets.{
  stored, stored-Inv, packet_epoch, decrypt-epoch, decrypt_mine, decrypt_resolved,
}

module _ {Cipher : Type 0} (a : Aead Cipher) where
  -- The ring's session of the epoch that a packet names.
  abbrev pub IsNamed : Crypto Cipher → Bytes → Session Cipher → Type 0
  IsNamed c p s = (resolve c.ring (packet_epoch a p) ≡ some (some s)) × (s.epoch ≡ packet_epoch a p)

  -- The named session decides on the packet, and it alone is put back.
  abbrev pub ByNamed : Crypto Cipher → Bytes → Crypto Cipher × Result Bytes → Type 0
  ByNamed c p (c', r) =
      (s : Session Cipher) × (s' : Session Cipher) × IsNamed c p s
      × Decides a s (drop 8 p) (s', r)
      × (c' ≡ stored a c (packet_epoch a p) s')

  -- What a call of `Decrypt` may do.
  abbrev pub IsRouted : Crypto Cipher → Bytes → Crypto Cipher × Result Bytes → Type 0
  IsRouted c p (c', ok pt) =
      (36 ≤ length p) × (be (take 8 p) ≡ c.route_id) × ByNamed c p (c', ok pt)
  IsRouted c p (c', err e) =
      ((length p < 36) × (e ≡ cipher_too_short) × (c' ≡ c))
      ⊎ ((36 ≤ length p) × (be (take 8 p) ≢ c.route_id) × (e ≡ unknown_route_id) × (c' ≡ c))
      ⊎ ((36 ≤ length p)
          × (be (take 8 p) ≡ c.route_id)
          × ¬ ((s : Session Cipher) × IsNamed c p s)
          × (e ≡ unknown_epoch)
          × (c' ≡ c))
      ⊎ ((36 ≤ length p) × (be (take 8 p) ≡ c.route_id) × ByNamed c p (c', err e))

  decrypt_short :
      (c : Crypto Cipher) (p : Bytes) → length p < 36 → decrypt a c p ≡ (c, err cipher_too_short)
  unfolding decrypt
  decrypt_short c p short = ground arith

  decrypt_other :
      (c : Crypto Cipher) (p : Bytes)
      → 36 ≤ length p
      → be (take 8 p) ≢ c.route_id
      → decrypt a c p ≡ (c, err unknown_route_id)
  unfolding decrypt read_route_id
  decrypt_other c p long route = ground arith

  -- A ring without the named session.
  decrypt_unnamed :
      (c : Crypto Cipher) (p : Bytes) (found : Option (Option (Session Cipher)))
      → resolve c.ring (packet_epoch a p) ≡ found
      → ((s : Session Cipher) × IsNamed c p s)
        ⊎ ((¬ ((s : Session Cipher) × IsNamed c p s))
            × (decrypt_routed a c (drop 8 p) ≡ (c, err unknown_epoch)))
  unfolding decrypt_routed decrypt_session
  decrypt_unnamed c p none f =
      inr (λ h. (let (s, (there, own)) = h in cc), rw (f, decrypt_routed) refl)
  decrypt_unnamed c p (some none) f =
      inr (λ h. (let (s, (there, own)) = h in cc), rw (f, decrypt_routed) refl)
  decrypt_unnamed c p (some (some s)) f = elim (ℕ_discrete s.epoch (packet_epoch a p)) [
    | yes own ↦ inl (s, (f, own))
    | no other ↦ inr (
      λ h.
          (let (s', (there, own)) = h in
            let one : s ≡ s' = cc in absurd (other (ap (λ x. x.epoch) one ∙ own))),
      rw (f, decrypt_routed, ==_ne s.epoch (packet_epoch a p) other) refl,
    )
  ]

  by_named :
      (c : Crypto Cipher) (p : Bytes) (s : Session Cipher)
      → IsNamed c p s
      → ByNamed c p (decrypt_routed a c (drop 8 p))
  by_named c p s (there, own) =
      rw (decrypt_resolved a c (drop 8 p) there own)
        (s, (Session.decrypt a s (drop 8 p)).0, (there, own), decrypt-Decides a s (drop 8 p), refl)

  ByNamed-Inv :
      (c : Crypto Cipher) (p : Bytes) (s : Session Cipher)
      → IsNamed c p s
      → Inv c
      → Inv (decrypt_routed a c (drop 8 p)).0
  ByNamed-Inv c p s (there, own) v = rw (decrypt_resolved a c (drop 8 p) there own) (
      stored-Inv a c (packet_epoch a p) (Session.decrypt a s (drop 8 p)).0
        (decrypt-epoch a s (drop 8 p) ∙ own) v)

  of_named :
      (c : Crypto Cipher) (p : Bytes) (r : Crypto Cipher × Result Bytes)
      → 36 ≤ length p
      → be (take 8 p) ≡ c.route_id
      → ByNamed c p r
      → IsRouted c p r
  of_named c p (c', ok pt) long route b = (long, route, b)
  of_named c p (c', err e) long route b = inr (inr (inr (long, route, b)))

  -- On a valid crypto, Crypto.Decrypt opens a packet only if it has at least 36 bytes, the route id
  -- is the crypto's, and the ring's session of the epoch that it names finds its nonce new and the
  -- packet authentic; then it returns the opened payload, and that session, with the nonce
  -- committed, is put back. A short packet, another route id and an epoch without a session each
  -- give their own error and change nothing, and a packet that the session refuses leaves its
  -- window, nonce and ciphers. The crypto stays valid.
  pub decrypt-IsRouted :
      (c : Crypto Cipher) (p : Bytes) → Inv c → IsRouted c p (decrypt a c p) × Inv (decrypt a c p).0
  decrypt-IsRouted c p v = elim (dec_lt (length p) 36) [
    | yes short ↦ rw (decrypt_short c p short) (inl (short, refl, refl), v)
    | no not_short ↦
        let long : 36 ≤ length p = omega arith in
        elim (ℕ_discrete (be (take 8 p)) c.route_id) [
          | no other ↦ rw (decrypt_other c p long other) (inr (inl (long, other, refl, refl)), v)
          | yes mine ↦ elim (decrypt_unnamed c p (resolve c.ring (packet_epoch a p)) refl) [
            | inl (s, named) ↦ rw (decrypt_mine a c p long mine) (
              of_named c p (decrypt_routed a c (drop 8 p)) long mine (by_named c p s named),
              ByNamed-Inv c p s named v,
            )
            | inr (unnamed, e) ↦
                rw (decrypt_mine a c p long mine, e)
                  (inr (inr (inl (long, mine, unnamed, refl, refl))), v)
          ]
        ]
  ]
