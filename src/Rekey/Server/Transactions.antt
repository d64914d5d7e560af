-- ===== src/Rekey/Server/Transactions.antt =====
-- One rekey transaction at a time, and no answer to its request once it is complete.
use tun_go.Base.{
  ℕ, ◌≡◌, refl, ap, Bool, true, false, ◌||◌, not, none, some, ◌==◌, if◌then◌else◌, Bool-cases,
  Option-cases, inl, inr, ◌⊎◌, Bytes, arith, subst,
}
use tun_go.Rekey.StateMachine.{EpochManager}
use tun_go.Rekey.Server.{
  Primitives, ServerRekeyTransaction, complete, ServerRekeyCoordinator, Reply, no_reply, reply,
  same_bytes, request_kind, begin, handle,
}
use tun_go.Rekey.Server.Begin.{same_bytes_refl, Remembers, begin-Remembers}

module _ {M X : Type 0} (manager : EpochManager M) (prim : Primitives X) where
  module _ (c : ServerRekeyCoordinator M X) (carrier_epoch : ℕ) (has_crypto : Bool)
      (plaindata : Bytes) where
    handle_unasked :
        request_kind c.has_v2 has_crypto plaindata ≡ none
        → handle manager prim c carrier_epoch has_crypto plaindata ≡ (c, no_reply)
    unfolding handle
    handle_unasked e = rw (e, handle) refl

    pub handle_idle :
        (kind : ℕ)
        → request_kind c.has_v2 has_crypto plaindata ≡ some kind
        → c.current ≡ none
        → handle manager prim c carrier_epoch has_crypto plaindata
          ≡ begin manager prim c carrier_epoch kind plaindata
    unfolding handle
    handle_idle kind e f = ground arith

    pub handle_same :
        (kind : ℕ) (t : ServerRekeyTransaction)
        → request_kind c.has_v2 has_crypto plaindata ≡ some kind
        → c.current ≡ some t
        → same_bytes t.request_hash (prim.sum256 plaindata) ≡ true
        → handle manager prim c carrier_epoch has_crypto plaindata ≡ (
            if complete t || not (t.carrier_epoch == carrier_epoch)
            then (c, no_reply)
            else (c, reply t.response t.epoch))
    unfolding handle
    handle_same kind t e f g = ground arith

    handle_other :
        (kind : ℕ) (t : ServerRekeyTransaction)
        → request_kind c.has_v2 has_crypto plaindata ≡ some kind
        → c.current ≡ some t
        → same_bytes t.request_hash (prim.sum256 plaindata) ≡ false
        → handle manager prim c carrier_epoch has_crypto plaindata ≡ (
            if not (complete t) || not (carrier_epoch == t.epoch)
            then (c, no_reply)
            else begin manager prim c carrier_epoch kind plaindata)
    unfolding handle
    handle_other kind t e f g = ground arith

    from_begin :
        (kind : ℕ)
        → handle manager prim c carrier_epoch has_crypto plaindata
          ≡ begin manager prim c carrier_epoch kind plaindata
        → Remembers manager prim c carrier_epoch plaindata
            (handle manager prim c carrier_epoch has_crypto plaindata)
    from_begin kind q = rw q (begin-Remembers manager prim c carrier_epoch kind plaindata)

    from_same :
        (kind : ℕ) (t : ServerRekeyTransaction)
        → request_kind c.has_v2 has_crypto plaindata ≡ some kind
        → c.current ≡ some t
        → same_bytes t.request_hash (prim.sum256 plaindata) ≡ true
        → Remembers manager prim c carrier_epoch plaindata
            (handle manager prim c carrier_epoch has_crypto plaindata)
    from_same kind t e f g =
        elim (Bool-cases (complete t || not (t.carrier_epoch == carrier_epoch))) [
          | inl h ↦ rw (handle_same kind t e f g, h) refl
          | inr h ↦
              rw (handle_same kind t e f g, h)
                (t, f, refl, refl, refl, ground (arith, h), ground (arith, h), g)
        ]

    from_other :
        (kind : ℕ) (t : ServerRekeyTransaction)
        → request_kind c.has_v2 has_crypto plaindata ≡ some kind
        → c.current ≡ some t
        → same_bytes t.request_hash (prim.sum256 plaindata) ≡ false
        → Remembers manager prim c carrier_epoch plaindata
            (handle manager prim c carrier_epoch has_crypto plaindata)
    from_other kind t e f g =
        elim (Bool-cases (not (complete t) || not (carrier_epoch == t.epoch))) [
          | inl h ↦ rw (handle_other kind t e f g, h) refl
          | inr h ↦ from_begin kind (rw (handle_other kind t e f g, h) refl)
        ]

    pub handle-Remembers :
        Remembers manager prim c carrier_epoch plaindata
          (handle manager prim c carrier_epoch has_crypto plaindata)
    handle-Remembers = elim (Option-cases (request_kind c.has_v2 has_crypto plaindata)) [
      | inl e ↦ rw (handle_unasked e) refl
      | inr (kind, e) ↦ elim (Option-cases c.current) [
        | inl f ↦ from_begin kind (handle_idle kind e f)
        | inr (t, f) ↦ elim (Bool-cases (same_bytes t.request_hash (prim.sum256 plaindata))) [
          | inl g ↦ from_same kind t e f g
          | inr g ↦ from_other kind t e f g
        ]
      ]
    ]

    pub asked :
        (response : Bytes) (epoch : ℕ)
        → (handle manager prim c carrier_epoch has_crypto plaindata).1 ≡ reply response epoch
        → (kind : ℕ) × (request_kind c.has_v2 has_crypto plaindata ≡ some kind)
    asked response epoch q = elim (Option-cases (request_kind c.has_v2 has_crypto plaindata)) [
      | inr found ↦ found
      | inl e ↦ absurd (
          let silent : (handle manager prim c carrier_epoch has_crypto plaindata).1 ≡ no_reply =
            ap (λ (x : ServerRekeyCoordinator M X × Reply). x.1) (handle_unasked e) in
          cc)
    ]

  pub remembered :
      (c : ServerRekeyCoordinator M X) (carrier_epoch : ℕ) (plaindata response : Bytes) (epoch : ℕ)
      (r : ServerRekeyCoordinator M X × Reply)
      → Remembers manager prim c carrier_epoch plaindata r
      → r.1 ≡ reply response epoch
      → Remembers manager prim c carrier_epoch plaindata (r.0, reply response epoch)
  remembered c carrier_epoch plaindata response epoch (c', x) v q =
      subst (λ (y : Reply). Remembers manager prim c carrier_epoch plaindata (c', y)) q v

  -- While a transaction is not complete, Handle changes nothing, and answers with that
  -- transaction's response or not at all.
  pub handle_pending :
      (c : ServerRekeyCoordinator M X) (carrier_epoch : ℕ) (has_crypto : Bool) (plaindata : Bytes)
      (t : ServerRekeyTransaction)
      → c.current ≡ some t
      → complete t ≡ false
      → (handle manager prim c carrier_epoch has_crypto plaindata ≡ (c, no_reply))
        ⊎ (handle manager prim c carrier_epoch has_crypto plaindata ≡ (c, reply t.response t.epoch))
  handle_pending c carrier_epoch has_crypto plaindata t f open_ =
      elim (Option-cases (request_kind c.has_v2 has_crypto plaindata)) [
        | inl e ↦ inl (handle_unasked c carrier_epoch has_crypto plaindata e)
        | inr (kind, e) ↦ elim (Bool-cases (same_bytes t.request_hash (prim.sum256 plaindata))) [
          | inr g ↦
              inl (rw (handle_other c carrier_epoch has_crypto plaindata kind t e f g, open_) refl)
          | inl g ↦ elim (Bool-cases (t.carrier_epoch == carrier_epoch)) [
            | inl h ↦
                inr (
                  rw (handle_same c carrier_epoch has_crypto plaindata kind t e f g, open_, h) refl)
            | inr h ↦
                inl (
                  rw (handle_same c carrier_epoch has_crypto plaindata kind t e f g, open_, h) refl)
          ]
        ]
      ]

  -- Once a transaction is complete, its request is ignored: no answer and no change.
  pub handle_replayed :
      (c : ServerRekeyCoordinator M X) (carrier_epoch : ℕ) (has_crypto : Bool) (plaindata : Bytes)
      (t : ServerRekeyTransaction)
      → c.current ≡ some t
      → complete t ≡ true
      → t.request_hash ≡ prim.sum256 plaindata
      → handle manager prim c carrier_epoch has_crypto plaindata ≡ (c, no_reply)
  handle_replayed c carrier_epoch has_crypto plaindata t f done h =
      elim (Option-cases (request_kind c.has_v2 has_crypto plaindata)) [
        | inl e ↦ handle_unasked c carrier_epoch has_crypto plaindata e
        | inr (kind, e) ↦
            rw
              (
                handle_same c carrier_epoch has_crypto plaindata kind t e f
                    (rw h (same_bytes_refl (prim.sum256 plaindata))),
                done,
              )
              refl
      ]
