-- ===== src/Noise/Responder/Service.antt =====
-- The server's handshake as a whole (ik_handshake.go): what it has seen before it answers, and what
-- it spares a flood of requests.
use tun_go.Base.{
  ℕ, ◌≡◌, ◌≢◌, ◌∙◌, inl, inr, refl, sym, ap, true, false, Option, none, some, Bytes, Result, ok,
  err, Error, arith, Option-cases, Bool-cases, subst,
}
use tun_go.Ip.{Addr}
use tun_go.Noise.Mac.{Blake, verify_mac1, check_version}
use tun_go.Noise.Cookie.{XAead, CookieManager, verify_mac2_for_client}
use tun_go.Noise.Handshake.{
  NoiseLib, Transport, IkHandshake, bytes_of, validate_server_config, lookup, recorded,
  needs_cookie,
}
use tun_go.Noise.Responder.{enforce_cookie_if_needed, past_mac1, read_msg1, server_side_handshake}
use tun_go.Noise.Responder.Admission.{
  IsProven, IsOpened, IsListed, refused, past_mac1_error, past_mac1_ok, enforced, accept_client_lem,
}

-- What a message has shown that the server answers to.
pub record IsAdmitted {HS T : Type 0} (lib : NoiseLib HS) (blake : Blake) (tr : Transport T)
    (h : IkHandshake HS) (now seed : ℕ) (t : T) (key : Bytes) (id : ℕ) : Type 0 where
  pub received : Bytes
  pub message : Bytes
  pub was_read : (tr.read t 2048).1 ≡ ok received
  pub version : check_version received ≡ ok message
  pub mac1 : verify_mac1 blake message (bytes_of h.server_pub_key) ≡ true
  pub mac2 :
      (cm : CookieManager)
      → needs_cookie (recorded now h) ≡ some cm
      → IsProven blake tr now (tr.read t 2048).0 message cm
  pub opened :
      IsOpened lib (bytes_of h.server_priv_key) (bytes_of h.server_pub_key) seed message key
  pub listed : lookup h key ≡ some (id, true)

module _ {HS T : Type 0} (lib : NoiseLib HS) (blake : Blake) (x : XAead) (tr : Transport T) where
  module _ (h : IkHandshake HS) (now : ℕ) (random : Option Bytes) (seed : ℕ) (t : T) where
    abbrev result : IkHandshake HS × T × Result ℕ
    result = server_side_handshake lib blake x tr h now random seed t

    -- The handshake once the message is read and its first MAC is right.
    pub read_through :
        (b m : Bytes)
        → validate_server_config h ≡ none
        → (tr.read t 2048).1 ≡ ok b
        → check_version b ≡ ok m
        → verify_mac1 blake m (bytes_of h.server_pub_key) ≡ true
        → result ≡ past_mac1 lib blake x tr (recorded now h) now random seed (tr.read t 2048).0 m
    unfolding server_side_handshake read_msg1
    read_through b m c r v mac = ground (arith, c, r, v, mac)

    lookup-recorded : (key : Bytes) → lookup (recorded now h) key ≡ lookup h key
    unfolding lookup recorded
    lookup-recorded key = elim (Option-cases h.load_monitor) [
      | inl e ↦ ground (arith, e)
      | inr (lm, e) ↦ ground (arith, e)
    ]

    keys-recorded :
        ((recorded now h).server_priv_key ≡ h.server_priv_key)
        × ((recorded now h).server_pub_key ≡ h.server_pub_key)
    unfolding recorded
    keys-recorded = elim (Option-cases h.load_monitor) [
      | inl e ↦ (ground (arith, e), ground (arith, e))
      | inr (lm, e) ↦ (ground (arith, e), ground (arith, e))
    ]

    IsListed-recorded :
        (m key : Bytes) (id : ℕ)
        → IsListed lib (recorded now h) seed m key id
        → IsListed lib h seed m key id
    IsListed-recorded m key id (o, found) = (
      record {
        fresh = o.fresh;
        opened = o.opened;
        payload = o.payload;
        was_made = rw (keys-recorded.0, keys-recorded.1) at o.was_made;
        was_opened = o.was_opened;
        its_key = o.its_key;
      },
      sym (lookup-recorded key) ∙ found,
    )

    -- A server handshake that returns a client id has read a message with the right version and the
    -- right first MAC, with the second MAC of a cookie of the client's address if the server was
    -- under load and has a cookie manager; a fresh Noise responder with the server's keys and an
    -- empty prologue has read that message without the MACs successfully, the authenticated key is
    -- the static key that it found there, and that key is enabled under that id among the allowed
    -- peers.
    pub handshake_admits :
        (id : ℕ)
        → result.2 ≡ ok id
        → IsAdmitted lib blake tr h now seed t result.0.authenticated_client_pub_key id
    unfolding server_side_handshake read_msg1
    handshake_admits id e = elim (Option-cases (validate_server_config h)) [
      | inr (x', v) ↦ absurd (ground (arith, v))
      | inl v ↦ read (tr.read t 2048).1 refl v
    ]
      where
        t' : T
        t' = (tr.read t 2048).0

        admitted :
            (b m : Bytes)
            → (tr.read t 2048).1 ≡ ok b
            → check_version b ≡ ok m
            → verify_mac1 blake m (bytes_of h.server_pub_key) ≡ true
            → result ≡ past_mac1 lib blake x tr (recorded now h) now random seed t' m
            → IsAdmitted lib blake tr h now seed t result.0.authenticated_client_pub_key id
        admitted b m r c mac at =
            elim (Option-cases
              (enforce_cookie_if_needed blake x tr (recorded now h) now random t' m).1) [
                | inr (x', g) ↦
                    (let ends =
                        at
                        ∙ past_mac1_error blake x tr (recorded now h) now random seed t' m lib x'
                            g in
                      let failed : err x' ≡ ok id = sym (ap (λ s. s.2) ends) ∙ e in absurd (cc))
                | inl g ↦
                    (let ends =
                        at ∙ past_mac1_ok blake x tr (recorded now h) now random seed t' m lib g in
                      let (opened, listed) =
                        IsListed-recorded m result.0.authenticated_client_pub_key id (
                          subst
                            (λ s.
                              IsListed lib (recorded now h) seed m s.0.authenticated_client_pub_key
                                id)
                            (sym ends)
                            (accept_client_lem (recorded now h) lib tr seed
                              (enforce_cookie_if_needed blake x tr (recorded now h) now random t'
                                m).0
                              m id (sym (ap (λ s. s.2) ends) ∙ e))) in
                      record {
                        received = b;
                        message = m;
                        was_read = r;
                        version = c;
                        mac1 = mac;
                        mac2 = λ cm n.
                            enforced blake x tr (recorded now h) now random seed t' m cm n g;
                        opened = opened;
                        listed = listed;
                      })
              ]

        versioned :
            (b : Bytes) (c : Result Bytes)
            → (tr.read t 2048).1 ≡ ok b
            → check_version b ≡ c
            → validate_server_config h ≡ none
            → IsAdmitted lib blake tr h now seed t result.0.authenticated_client_pub_key id
        versioned b (err x') r c v = absurd (ground (arith, r, c, v))
        versioned b (ok m) r c v =
            elim (Bool-cases (verify_mac1 blake m (bytes_of h.server_pub_key))) [
              | inl mac ↦ admitted b m r c mac (read_through b m v r c mac)
              | inr mac ↦ absurd (ground (arith, r, c, v, mac))
            ]

        read :
            (r : Result Bytes)
            → (tr.read t 2048).1 ≡ r
            → validate_server_config h ≡ none
            → IsAdmitted lib blake tr h now seed t result.0.authenticated_client_pub_key id
        read (err x') r v = absurd (ground (arith, r, v))
        read (ok b) r v = versioned b (check_version b) r refl v

-- On a configured server under load with a cookie manager, a message from a known address, with the
-- right version and the right first MAC but no MAC of a cookie of that address in the present or
-- the last time bucket, gets the same outcome, replies and error included, from any two Noise
-- libraries, and is refused: the server spends no key exchange on it.
pub flood_spared :
    {HS T : Type 0} (lib other : NoiseLib HS) (blake : Blake) (x : XAead) (tr : Transport T)
    (h : IkHandshake HS) (now : ℕ) (random : Option Bytes) (seed : ℕ) (t : T) (b m : Bytes)
    (cm : CookieManager) (ip : Addr)
    → validate_server_config h ≡ none
    → (tr.read t 2048).1 ≡ ok b
    → check_version b ≡ ok m
    → verify_mac1 blake m (bytes_of h.server_pub_key) ≡ true
    → needs_cookie (recorded now h) ≡ some cm
    → tr.remote_addr (tr.read t 2048).0 ≡ some ip
    → verify_mac2_for_client blake cm now m ip ≡ false
    → (server_side_handshake lib blake x tr h now random seed t
        ≡ server_side_handshake other blake x tr h now random seed t)
      × ((id : ℕ) → (server_side_handshake lib blake x tr h now random seed t).2 ≢ ok id)
flood_spared lib other blake x tr h now random seed t b m cm ip c r v mac n k bad =
    let (e, gate) =
      refused blake x tr (recorded now h) now random seed (tr.read t 2048).0 m cm ip n k bad in
    let one = read_through lib blake x tr h now random seed t b m c r v mac in
    let two = read_through other blake x tr h now random seed t b m c r v mac in
    let ends =
      past_mac1_error blake x tr (recorded now h) now random seed (tr.read t 2048).0 m lib e gate in
    let also =
      past_mac1_error blake x tr (recorded now h) now random seed (tr.read t 2048).0 m other e
        gate in
    (
      one ∙ ends ∙ sym (two ∙ also),
      λ id good. absurd (clash (sym (ap (λ s. s.2) (one ∙ ends)) ∙ good)),
    )
  where
    clash : {e : Error} {id : ℕ} → err e ≡ ok id → ⊥
    clash h = cc
