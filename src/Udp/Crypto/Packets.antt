-- ===== src/Udp/Crypto/Packets.antt =====
-- Packets of `udp.Crypto`: the right session seals them, and the peer's opens them.
use tun_go.Base.{
  ℕ, ◌+◌, ◌-◌, ◌^◌, ◌≤◌, ◌<◌, ◌≡◌, sym, ap, ◌∙◌, subst, ◌++◌, some, length, take, drop,
  length-append, length-drop, drop-drop, take-append_of_length, drop-append_of_length,
  length-put_be, be-put_be, put_be, be, Bytes, ok, arith,
}
use tun_go.Aead.{Aead, Laws}
use tun_go.Nonce.{Nonce, IsNonce, increment}
use tun_go.Nonce.Counter.{Advances, increment-Advances, read_epoch}
use tun_go.Window.{check}
use tun_go.Udp.Session
use tun_go.Udp.Session.{Session, seal_with, open_with}
use tun_go.Udp.Session.Open.{
  Paired, packet, read-header, encrypt-packet, decrypt-packet, length-packet,
}
use tun_go.Udp.Ring.{resolve, update_entry}
use tun_go.Udp.Ring.Order.{Consecutive, resolve_in, length-update_entry, update_entry-Consecutive}
use tun_go.Udp.Crypto.{
  Crypto, encrypt, encrypt_session, decrypt, decrypt_routed, decrypt_session, read_route_id,
}
use tun_go.Udp.Crypto.Epochs.{Inv, first_epoch}

module _ {Cipher : Type 0} (a : Aead Cipher) where
  encrypt-epoch :
      (s : Session Cipher) (cap : ℕ) (p : Bytes) → (Session.encrypt a s cap p).0.epoch ≡ s.epoch
  unfolding Session.encrypt seal_with
  encrypt-epoch s cap p = ground arith

  open_with-epoch :
      (s : Session Cipher) (l h : ℕ) (c : Bytes) → (open_with a s l h c).0.epoch ≡ s.epoch
  unfolding open_with
  open_with-epoch s l h c = ground arith

  pub decrypt-epoch : (s : Session Cipher) (c : Bytes) → (Session.decrypt a s c).0.epoch ≡ s.epoch
  unfolding Session.decrypt
  decrypt-epoch s c = ground (arith, open_with-epoch s (be (take 8 c)) (be (take 2 (drop 8 c))) c)

  -- A session of the ring changed in place.
  abbrev pub stored : Crypto Cipher → ℕ → Session Cipher → Crypto Cipher
  stored c epoch s = record c {
    ring = record { capacity = c.ring.capacity; entries = update_entry epoch s c.ring.entries };
  }

  pub stored-Inv :
      (c : Crypto Cipher) (epoch : ℕ) (s : Session Cipher)
      → s.epoch ≡ epoch
      → Inv c
      → Inv (stored c epoch s)
  stored-Inv c epoch s own v =
      let same : length (update_entry epoch s c.ring.entries) ≡ length c.ring.entries =
        length-update_entry epoch s c.ring.entries in
      record {
        capacity_is = v.capacity_is;
        some_session = omega (arith, v.some_session);
        within = omega (arith, v.within);
        counted = omega (arith, v.counted);
        ordered =
            subst
              (λ (n : ℕ).
                Consecutive (c.epoch_counter + 1 - n) (update_entry epoch s c.ring.entries))
              (sym same)
              (update_entry-Consecutive (first_epoch c) epoch s c.ring.entries own v.ordered);
        send_kept = omega (arith, v.send_kept);
        send_known = v.send_known;
        limited = v.limited;
      }

  resolves :
      (c : Crypto Cipher) (epoch : ℕ)
      → Inv c
      → first_epoch c ≤ epoch
      → epoch ≤ c.epoch_counter
      → (s : Session Cipher) × (resolve c.ring epoch ≡ some (some s)) × (s.epoch ≡ epoch)
  unfolding resolve
  resolves c epoch v lo hi =
      let (s, e, found, held, own) =
        resolve_in (first_epoch c) epoch c.ring.entries v.ordered lo (omega (arith, v.counted)) in
      (s, rw (found, held), own)

  encrypt_sends :
      (c : Crypto Cipher) (cap : ℕ) (p : Bytes) {s : Session Cipher} {body : Bytes}
      → 20 ≤ length p
      → resolve c.ring c.send_epoch ≡ some (some s)
      → (Session.encrypt a s (cap - 8) (drop 8 p)).1 ≡ ok body
      → (encrypt a c cap p).1 ≡ ok (put_be 8 c.route_id ++ body)
  unfolding encrypt encrypt_session
  encrypt_sends c cap p long found e = rw (found, encrypt) (ground arith)

  -- On a valid crypto, Encrypt of a buffer of at least 20 bytes finds the session of the send
  -- epoch (the fallback to the newest session is never taken), changes that session of the ring
  -- only, and keeps the invariant.
  pub encrypt_uses_send_epoch :
      (c : Crypto Cipher) (cap : ℕ) (p : Bytes)
      → Inv c
      → 20 ≤ length p
      → (s : Session Cipher) × (s.epoch ≡ c.send_epoch)
        × (resolve c.ring c.send_epoch ≡ some (some s))
        × ((encrypt a c cap p).0
            ≡ stored c c.send_epoch (Session.encrypt a s (cap - 8) (drop 8 p)).0)
        × Inv (encrypt a c cap p).0
  encrypt_uses_send_epoch c cap p v long =
      let (s, found, own) = resolves c c.send_epoch v v.send_kept v.send_known in
      let there : (encrypt a c cap p).0
          ≡ stored c c.send_epoch (Session.encrypt a s (cap - 8) (drop 8 p)).0 =
        unfold encrypt encrypt_session in rw (found, encrypt) (ground arith) in
      (
        s,
        own,
        found,
        there,
        rw there (stored-Inv c c.send_epoch _ (encrypt-epoch s (cap - 8) (drop 8 p) ∙ own) v),
      )

  -- The epoch that a packet names.
  abbrev pub packet_epoch : Bytes → ℕ
  packet_epoch p = read_epoch (drop 8 p)

  pub decrypt_mine :
      (c : Crypto Cipher) (p : Bytes)
      → 36 ≤ length p
      → be (take 8 p) ≡ c.route_id
      → decrypt a c p ≡ decrypt_routed a c (drop 8 p)
  unfolding decrypt read_route_id
  decrypt_mine c p long route = ground arith

  pub decrypt_resolved :
      (c : Crypto Cipher) (q : Bytes) {s : Session Cipher}
      → resolve c.ring (read_epoch q) ≡ some (some s)
      → s.epoch ≡ read_epoch q
      → decrypt_routed a c q
        ≡ (stored c (read_epoch q) (Session.decrypt a s q).0, (Session.decrypt a s q).1)
  unfolding decrypt_routed decrypt_session
  decrypt_resolved c q found own = rw (found, decrypt_routed) (ground arith)

  increment-epoch : (n : Nonce) {n' : Nonce} → increment n ≡ ok n' → n'.epoch ≡ n.epoch
  unfolding increment
  increment-epoch n e = ground arith

  decrypt_receives :
      (d : Crypto Cipher) (epoch w : ℕ) (body : Bytes) {r : Session Cipher} {pt : Bytes}
      → 28 ≤ length body
      → w < 2 ^ 64
      → d.route_id ≡ w
      → read_epoch body ≡ epoch
      → resolve d.ring epoch ≡ some (some r)
      → r.epoch ≡ epoch
      → (Session.decrypt a r body).1 ≡ ok pt
      → (decrypt a d (put_be 8 w ++ body)).1 ≡ ok pt
  decrypt_receives d epoch w body {r} long fits route named holds own e =
      let pkt = put_be 8 w ++ body in
      let tail : drop 8 pkt ≡ body =
        drop-append_of_length 8 (put_be 8 w) body (length-put_be 8 w) in
      let front : take 8 pkt ≡ put_be 8 w =
        take-append_of_length 8 (put_be 8 w) body (length-put_be 8 w) in
      ap (λ t. t.1)
        (decrypt_mine d pkt (omega (arith, length-append (put_be 8 w) body, length-put_be 8 w))
            (rw front (be-put_be 8 w fits ∙ sym route))
          ∙ (ap (decrypt_routed a d) tail
              ∙ decrypt_resolved d body (rw named holds) (own ∙ sym named)))
      ∙ e

  -- Delivery between two UDP peers. If the sender's send epoch has a session whose nonce is
  -- well-formed and not used up, the receiver's ring holds the paired session of that epoch and
  -- its window admits the next nonce, the route ids agree, and the buffer has 20 bytes of headroom
  -- and 16 of spare capacity, then Crypto.Encrypt succeeds and Crypto.Decrypt at the peer returns
  -- the payload behind the headroom.
  pub decrypt-encrypt_peers :
      (laws : Laws a) (c d : Crypto Cipher) (cap : ℕ) (p : Bytes) (s r : Session Cipher) {n : Nonce}
      → 20 ≤ length p
      → length p + 16 ≤ cap
      → resolve c.ring c.send_epoch ≡ some (some s)
      → resolve d.ring c.send_epoch ≡ some (some r)
      → s.nonce.epoch ≡ c.send_epoch
      → r.epoch ≡ c.send_epoch
      → Paired s r
      → d.route_id ≡ c.route_id
      → c.route_id < 2 ^ 64
      → IsNonce s.nonce
      → increment s.nonce ≡ ok n
      → check r.nonce_validator n.counter_low n.counter_high ≡ ok tt
      → (pkt : Bytes) × ((encrypt a c cap p).1 ≡ ok pkt) × ((decrypt a d pkt).1 ≡ ok (drop 20 p))
  decrypt-encrypt_peers laws c d cap p s r {n} long room sends holds own own' paired route fits v e
        new =
      let q = drop 8 p in
      let body = packet a s n q in
      let next : IsNonce n = (subst (Advances s.nonce) e (increment-Advances s.nonce v)).3 in
      let shorter : length q ≡ length p - 8 = length-drop 8 p in
      (
        put_be 8 c.route_id ++ body,
        encrypt_sends c cap p long sends
            (encrypt-packet a s (cap - 8) q (omega arith) (omega arith) e),
        decrypt_receives d c.send_epoch c.route_id body
            (omega (arith, length-packet a laws s r n q paired)) fits route
            ((read-header n q _ next).2 ∙ (increment-epoch s.nonce e ∙ own)) holds own'
            (ap (λ t. t.1) (decrypt-packet a laws s r n q paired next new)
              ∙ ap ok (drop-drop 8 12 p)),
      )
