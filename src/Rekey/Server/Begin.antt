-- ===== src/Rekey/Server/Begin.antt =====
-- What a call of `Handle` remembers of the transaction that it begins.
use tun_go.Base.{
  ℕ, ◌+◌, ◌≡◌, refl, [], ◌∷◌, true, false, some, ==_iff, Bool-cases, inl, inr, Bytes, length,
  replicate, Result, ok, err, arith,
}
use tun_go.ServicePacket
use tun_go.Rekey.StateMachine.{EpochManager, StateMachine, ready_for_rekey, start_rekey}
use tun_go.Rekey.Server.{
  Primitives, ServerRekeyTransaction, complete, ServerRekeyCoordinator, Reply, no_reply, reply,
  failed, same_bytes, make_keys, response_type, answer, stage, begin,
}

pub same_bytes_refl : (b : Bytes) → same_bytes b b ≡ true
unfolding same_bytes
same_bytes_refl [] = refl
same_bytes_refl (x ∷ b) = ground (arith, (==_iff x x).1 refl, same_bytes_refl b)

module _ {M X : Type 0} (manager : EpochManager M) (prim : Primitives X) where
  -- What a call of `Handle` leaves behind it.
  abbrev pub Remembers :
      ServerRekeyCoordinator M X → ℕ → Bytes → ServerRekeyCoordinator M X × Reply → Type 0
  Remembers c carrier_epoch plaindata (c', no_reply) = c' ≡ c
  Remembers c carrier_epoch plaindata (c', failed e) = c'.current ≡ c.current
  Remembers c carrier_epoch plaindata (c', reply response epoch) =
      (t : ServerRekeyTransaction) × (c'.current ≡ some t)
      × (c'.has_v2 ≡ c.has_v2)
      × (t.response ≡ response)
      × (t.epoch ≡ epoch)
      × (t.carrier_epoch ≡ carrier_epoch)
      × (complete t ≡ false)
      × (same_bytes t.request_hash (prim.sum256 plaindata) ≡ true)

  -- The coordinator after the calls that change the controller and the outer state.
  abbrev pub moved : ServerRekeyCoordinator M X → StateMachine M → X → ServerRekeyCoordinator M X
  moved c controller x = record c { controller = controller; world = x }

  pub answer-Remembers :
      (c : ServerRekeyCoordinator M X) (controller : StateMachine M) (x : X)
      (carrier_epoch kind epoch : ℕ) (plaindata body : Bytes)
      → Remembers c carrier_epoch plaindata (
          answer manager prim
            (moved c controller x)
            carrier_epoch
            (prim.sum256 plaindata)
            kind
            body
            epoch)
  unfolding answer
  answer-Remembers c controller x carrier_epoch kind epoch plaindata body =
      go (ServicePacket.encode (response_type manager prim kind) (replicate (3 + length body) 0))
        refl
    where
      go :
          (r : Result Bytes)
          → ServicePacket.encode (response_type manager prim kind) (replicate (3 + length body) 0)
            ≡ r
          → Remembers c carrier_epoch plaindata (
              answer manager prim
                (moved c controller x)
                carrier_epoch
                (prim.sum256 plaindata)
                kind
                body
                epoch)
      go (err e) q = rw (q, answer) refl
      go (ok h) q =
          rw (q, answer)
            (
              _,
              refl,
              refl,
              refl,
              refl,
              refl,
              unfold complete in refl,
              same_bytes_refl (prim.sum256 plaindata),
            )

  pub stage-Remembers :
      (c : ServerRekeyCoordinator M X) (x : X) (carrier_epoch kind : ℕ)
      (plaindata body c2s s2c : Bytes)
      → Remembers c carrier_epoch plaindata (
          stage manager prim
            (record c { world = x })
            carrier_epoch
            (prim.sum256 plaindata)
            kind
            body
            c2s
            s2c)
  unfolding stage
  stage-Remembers c x carrier_epoch kind plaindata body c2s s2c =
      go (start_rekey manager c.controller c2s s2c).1 refl
    where
      go :
          (r : Result ℕ)
          → (start_rekey manager c.controller c2s s2c).1 ≡ r
          → Remembers c carrier_epoch plaindata (
              stage manager prim
                (record c { world = x })
                carrier_epoch
                (prim.sum256 plaindata)
                kind
                body
                c2s
                s2c)
      go (err e) q = rw (q, stage) refl
      go (ok epoch) q =
          rw (q, stage)
            (answer-Remembers c (start_rekey manager c.controller c2s s2c).0 x carrier_epoch kind
              epoch plaindata body)

  pub begin-Remembers :
      (c : ServerRekeyCoordinator M X) (carrier_epoch kind : ℕ) (plaindata : Bytes)
      → Remembers c carrier_epoch plaindata (begin manager prim c carrier_epoch kind plaindata)
  unfolding begin
  begin-Remembers c carrier_epoch kind plaindata =
      elim (Bool-cases (ready_for_rekey c.controller)) [
        | inr e ↦ rw (e, begin) refl
        | inl e ↦ go e (make_keys manager prim c kind plaindata).1 refl
      ]
    where
      go :
          ready_for_rekey c.controller ≡ true
          → (r : Result (Bytes × Bytes × Bytes)) → (make_keys manager prim c kind plaindata).1 ≡ r
          → Remembers c carrier_epoch plaindata (begin manager prim c carrier_epoch kind plaindata)
      go e (err x) q = rw (e, begin, q) refl
      go e (ok (body, c2s, s2c)) q =
          rw (e, begin, q)
            (stage-Remembers c (make_keys manager prim c kind plaindata).0 carrier_epoch kind
              plaindata body c2s s2c)
