-- ===== src/Udp/Crypto/Epochs.antt =====
-- The epoch bookkeeping of `udp.Crypto`.
use tun_go.Base.{
  ℕ, suc, ◌+◌, ◌-◌, ◌≤◌, ◌<◌, ◌≡◌, refl, ap, subst, List, [], ◌∷◌, ◌++◌, Bool, false, Option, none,
  some, Bool-cases, inl, inr, leb, if◌then◌else◌, length, drop, length-append, length-drop, Bytes,
  Result, ok, err, bad_key_size, ==_iff, ==_ne, ◌≢◌, arith, ℕ_discrete,
}
use tun_go.Aead.{Aead}
use tun_go.Udp.Session.{Session, new_session_with_ciphers}
use tun_go.Udp.Ring.{EpochEntry, new_epoch_ring, insert, oldest, len}
use tun_go.Udp.Ring.Order.{Consecutive, Consecutive-append, Consecutive-drop}
use tun_go.Udp.Crypto.{Crypto, new_crypto, promote_send_epoch, stage_epoch, would_evict_send}

module _ {Cipher : Type 0} where
  -- The epoch of the oldest entry.
  abbrev pub first_epoch : Crypto Cipher → ℕ
  first_epoch c = c.epoch_counter + 1 - length c.ring.entries

  -- The ring holds the sessions of the newest one to four epochs, the send epoch among them.
  pub record Inv (c : Crypto Cipher) : Type 0 where
    pub capacity_is : c.ring.capacity ≡ 4
    pub some_session : 1 ≤ length c.ring.entries
    pub within : length c.ring.entries ≤ 4
    pub counted : length c.ring.entries ≤ c.epoch_counter + 1
    pub ordered : Consecutive (first_epoch c) c.ring.entries
    pub send_kept : first_epoch c ≤ c.send_epoch
    pub send_known : c.send_epoch ≤ c.epoch_counter
    pub limited : c.epoch_counter ≤ 65000

  -- `NewCrypto` starts in the invariant, at epoch 0.
  pub new_crypto-Inv :
      (id : Bytes) (send recv : Cipher) (is_server : Bool) → Inv (new_crypto id send recv is_server)
  unfolding new_crypto new_epoch_ring new_session_with_ciphers
  new_crypto-Inv id send recv is_server = omega arith

  -- `PromoteSendEpoch` keeps it for an epoch that the ring still holds.
  pub promote-Inv :
      (c : Crypto Cipher) (epoch : ℕ)
      → Inv c
      → first_epoch c ≤ epoch
      → epoch ≤ c.epoch_counter
      → Inv (promote_send_epoch c epoch)
  unfolding promote_send_epoch
  promote-Inv c epoch v lo hi = record {
    capacity_is = v.capacity_is;
    some_session = v.some_session;
    within = v.within;
    counted = v.counted;
    ordered = v.ordered;
    send_kept = lo;
    send_known = hi;
    limited = v.limited;
  }

  -- The guard against evicting the send epoch fails only if a full ring's oldest epoch is not it.
  keeps_send :
      (c : Crypto Cipher)
      → Inv c
      → would_evict_send c ≡ false
      → length c.ring.entries ≡ 4
      → first_epoch c < c.send_epoch
  unfolding would_evict_send oldest len
  keeps_send c v e full = go c.ring.entries v.ordered refl
    where
      go :
          (es : List (EpochEntry Cipher))
          → Consecutive (first_epoch c) es
          → c.ring.entries ≡ es
          → first_epoch c < c.send_epoch
      go [] o p = absurd (omega (arith, ap length p))
      go (x ∷ es) o p = ground (arith, v.capacity_is, v.send_kept, p, e, full, ap length p, o.0)

  -- The crypto with the session of the next epoch installed.
  abbrev install : Crypto Cipher → Session Cipher → Crypto Cipher
  install c s = record c {
    ring = (insert c.ring (c.epoch_counter + 1) (some s)).0;
    epoch_counter = c.epoch_counter + 1;
  }

  abbrev entry_of : Crypto Cipher → Session Cipher → EpochEntry Cipher
  entry_of c s = record { epoch = c.epoch_counter + 1; session = some s }

  insert_full :
      (c : Crypto Cipher) (s : Session Cipher)
      → length c.ring.entries ≡ c.ring.capacity
      → (insert c.ring (c.epoch_counter + 1) (some s)).0 ≡ record {
        capacity = c.ring.capacity;
        entries = drop 1 c.ring.entries ++ (entry_of c s ∷ []);
      }
  unfolding insert
  insert_full c s e = rw ((==_iff _ _).1 e)

  insert_room :
      (c : Crypto Cipher) (s : Session Cipher)
      → length c.ring.entries ≢ c.ring.capacity
      → (insert c.ring (c.epoch_counter + 1) (some s)).0
        ≡ record { capacity = c.ring.capacity; entries = c.ring.entries ++ (entry_of c s ∷ []) }
  unfolding insert
  insert_room c s e = rw (==_ne _ _ e)

  -- The invariant of the new crypto, from its entries.
  grown-Inv :
      (c : Crypto Cipher) (es : List (EpochEntry Cipher)) (s : Session Cipher) (k : ℕ)
      → Inv c
      → c.epoch_counter < 65000
      → s.epoch ≡ c.epoch_counter + 1
      → length es ≤ 3
      → k + length es ≡ c.epoch_counter + 1
      → k ≤ c.send_epoch
      → Consecutive k es
      → Inv (record c {
        ring = record { capacity = c.ring.capacity; entries = es ++ (entry_of c s ∷ []) };
        epoch_counter = c.epoch_counter + 1;
      })
  grown-Inv c es s k v low own few next kept o =
      let long : length (es ++ (entry_of c s ∷ [])) ≡ length es + 1 = length-append es _ in
      let start : k ≡ c.epoch_counter + 1 + 1 - length (es ++ (entry_of c s ∷ [])) = omega arith in
      record {
        capacity_is = v.capacity_is;
        some_session = omega arith;
        within = omega arith;
        counted = omega arith;
        ordered =
            subst (λ (j : ℕ). Consecutive j (es ++ (entry_of c s ∷ []))) start
              (Consecutive-append k es (entry_of c s) o (omega arith) (omega arith));
        send_kept = omega arith;
        send_known = omega (arith, v.send_known);
        limited = omega arith;
      }

  install-Inv :
      (c : Crypto Cipher) (s : Session Cipher)
      → Inv c
      → c.epoch_counter < 65000
      → would_evict_send c ≡ false
      → s.epoch ≡ c.epoch_counter + 1
      → Inv (install c s)
  install-Inv c s v low safe own = elim (ℕ_discrete (length c.ring.entries) c.ring.capacity) [
    | yes full ↦ rw (insert_full c s full) (
        grown-Inv c (drop 1 c.ring.entries) s (suc (first_epoch c)) v low own
          (omega (arith, length-drop 1 c.ring.entries, v.within))
          (omega (arith, length-drop 1 c.ring.entries, v.counted, v.some_session))
          (keeps_send c v safe (omega (arith, v.capacity_is)))
          (Consecutive-drop (first_epoch c) c.ring.entries v.ordered
            (omega (arith, v.some_session))))
    | no room ↦ rw (insert_room c s room) (
        grown-Inv c c.ring.entries s (first_epoch c) v low own
          (omega (arith, v.within, v.capacity_is)) (omega (arith, v.counted)) v.send_kept v.ordered)
  ]

module _ {Cipher : Type 0} (a : Aead Cipher) where
  -- What a call of `StageEpoch` may do.
  abbrev pub Stages : Crypto Cipher → Crypto Cipher × Result ℕ → Type 0
  Stages c (c', ok epoch) =
      (epoch ≡ c.epoch_counter + 1)
      × (c'.epoch_counter ≡ epoch)
      × (c'.send_epoch ≡ c.send_epoch)
      × (epoch ≤ 65000)
      × Inv c'
  Stages c (c', err e) = c' ≡ c

  -- StageEpoch on a valid crypto either fails and changes nothing, or returns the next epoch (at
  -- most 65000), leaves the send epoch alone and keeps the invariant, so that the send epoch's
  -- session is still in the ring even when a full ring drops its oldest entry.
  pub stage_epoch-Stages :
      (c : Crypto Cipher) (c2s s2c : Bytes) → Inv c → Stages c (stage_epoch a c c2s s2c)
  unfolding stage_epoch
  stage_epoch-Stages c c2s s2c v = elim (Bool-cases (leb 65000 c.epoch_counter)) [
    | inl e ↦ rw e refl
    | inr e ↦ rw e (elim (Bool-cases (would_evict_send c)) [
      | inl f ↦ rw f refl
      | inr f ↦ rw f (
          ciphers (a.new (if c.is_server then s2c else c2s))
            (a.new (if c.is_server then c2s else s2c)) (ground arith) f)
    ])
  ]
    where
      next_session : Cipher → Cipher → Session Cipher
      next_session send recv =
          new_session_with_ciphers c.session_id send recv c.is_server (c.epoch_counter + 1)

      ciphers :
          (x y : Option Cipher)
          → c.epoch_counter < 65000
          → would_evict_send c ≡ false
          → Stages c (elim x [
            | none ↦ (c, err bad_key_size)
            | some send ↦ elim y [
              | none ↦ (c, err bad_key_size)
              | some recv ↦ (install c (next_session send recv), ok (c.epoch_counter + 1))
            ]
          ])
      ciphers none y low safe = refl
      ciphers (some send) none low safe = refl
      ciphers (some send) (some recv) low safe = (
        refl,
        refl,
        refl,
        omega arith,
        install-Inv c (next_session send recv) v low safe (unfold new_session_with_ciphers in refl),
      )
