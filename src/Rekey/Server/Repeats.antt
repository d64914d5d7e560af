-- ===== src/Rekey/Server/Repeats.antt =====
-- The same answer to a repeated request for as long as its transaction is open, whatever the server
-- does in between (src/internal/protocol/rekey/rekey.go).
use tun_go.Base.{
  ℕ, ◌≡◌, refl, sym, ap, ◌∙◌, List, [], ◌∷◌, Bool, true, false, some, ==_iff, Bool-cases, inl, inr,
  subst, Bytes, arith, ◌==◌,
}
use tun_go.Rekey.StateMachine.{EpochManager}
use tun_go.Rekey.Server.{
  Primitives, ServerRekeyTransaction, complete, ServerRekeyCoordinator, reply, same_bytes,
  request_kind, handle, mark_activated, mark_observed, activate_send_epoch, observe_peer_epoch,
}
use tun_go.Rekey.Server.Transactions.{
  handle_same, handle_pending, handle-Remembers, asked, remembered,
}

-- A call of the coordinator's methods.
pub data Call : Type 0 where
  request : ℕ → Bool → Bytes → Call
  activate : ℕ → Call
  observe : ℕ → Call

-- The transaction is there and not complete.
abbrev pub IsOpen : {M X : Type 0} → ServerRekeyCoordinator M X → Type 0
IsOpen c = (t : ServerRekeyTransaction) × (c.current ≡ some t) × (complete t ≡ false)

module _ {M X : Type 0} (manager : EpochManager M) (prim : Primitives X) where
  abbrev pub call : ServerRekeyCoordinator M X → Call → ServerRekeyCoordinator M X
  call c (request carrier_epoch has_crypto plaindata) =
      (handle manager prim c carrier_epoch has_crypto plaindata).0
  call c (activate epoch) = activate_send_epoch manager prim c epoch
  call c (observe epoch) = observe_peer_epoch manager prim c epoch

  abbrev pub calls : ServerRekeyCoordinator M X → List Call → ServerRekeyCoordinator M X
  calls c [] = c
  calls c (k ∷ ks) = calls (call c k) ks

  -- No call completes the transaction.
  abbrev pub StaysOpen : ServerRekeyCoordinator M X → List Call → Type 0
  StaysOpen c [] = IsOpen c
  StaysOpen c (k ∷ ks) = IsOpen c × StaysOpen (call c k) ks

  module _ (carrier_epoch epoch : ℕ) (has_v2 : Bool) (plaindata response : Bytes) where
    -- The coordinator keeps the answer to the request.
    record Answers (c : ServerRekeyCoordinator M X) : Type 0 where
      kept : ServerRekeyTransaction
      is_current : c.current ≡ some kept
      version : c.has_v2 ≡ has_v2
      answered : kept.response ≡ response
      numbered : kept.epoch ≡ epoch
      carried : kept.carrier_epoch ≡ carrier_epoch
      hashed : same_bytes kept.request_hash (prim.sum256 plaindata) ≡ true

    -- Another state whose transaction differs in the two marks only.
    carry :
        (c c' : ServerRekeyCoordinator M X) (t : ServerRekeyTransaction) (v : Answers c)
        → c'.current ≡ some t
        → c'.has_v2 ≡ c.has_v2
        → t.response ≡ v.kept.response
        → t.epoch ≡ v.kept.epoch
        → t.carrier_epoch ≡ v.kept.carrier_epoch
        → t.request_hash ≡ v.kept.request_hash
        → Answers c'
    carry c c' t v f same answered numbered carried hashed = record {
      kept = t;
      is_current = f;
      version = same ∙ v.version;
      answered = answered ∙ v.answered;
      numbered = numbered ∙ v.numbered;
      carried = carried ∙ v.carried;
      hashed = ap (λ (h : Bytes). same_bytes h (prim.sum256 plaindata)) hashed ∙ v.hashed;
    }

    activate-Answers :
        (c : ServerRekeyCoordinator M X) (e : ℕ)
        → Answers c
        → Answers (activate_send_epoch manager prim c e)
    unfolding activate_send_epoch mark_activated
    activate-Answers c e v = elim (Bool-cases (v.kept.epoch == e)) [
      | inl q ↦
          carry c _ (record (v.kept) { send_activated = true }) v (ground (arith, v.is_current, q))
            refl refl refl refl refl
      | inr q ↦ carry c _ v.kept v (ground (arith, v.is_current, q)) refl refl refl refl refl
    ]

    observe-Answers :
        (c : ServerRekeyCoordinator M X) (e : ℕ)
        → Answers c
        → Answers (observe_peer_epoch manager prim c e)
    unfolding observe_peer_epoch mark_observed
    observe-Answers c e v = elim (Bool-cases (v.kept.epoch == e)) [
      | inl q ↦
          carry c _ (record (v.kept) { peer_observed = true }) v (ground (arith, v.is_current, q))
            refl refl refl refl refl
      | inr q ↦ carry c _ v.kept v (ground (arith, v.is_current, q)) refl refl refl refl refl
    ]

    call-Answers :
        (c : ServerRekeyCoordinator M X) (k : Call) → IsOpen c → Answers c → Answers (call c k)
    call-Answers c (activate e) o v = activate-Answers c e v
    call-Answers c (observe e) o v = observe-Answers c e v
    call-Answers c (request carrier has_crypto p) (t, f, open_) v =
        elim (handle_pending manager prim c carrier has_crypto p t f open_) [
          | inl e ↦ subst Answers (sym (ap (λ r. r.0) e)) v
          | inr e ↦ subst Answers (sym (ap (λ r. r.0) e)) v
        ]

    answers_again :
        (c : ServerRekeyCoordinator M X) (has_crypto : Bool) (kind : ℕ)
        → request_kind has_v2 has_crypto plaindata ≡ some kind
        → IsOpen c
        → Answers c
        → handle manager prim c carrier_epoch has_crypto plaindata ≡ (c, reply response epoch)
    answers_again c has_crypto kind e (t, f, open_) v =
        let asked' : request_kind c.has_v2 has_crypto plaindata ≡ some kind =
          ap (λ (b : Bool). request_kind b has_crypto plaindata) v.version ∙ e in
        let one : t ≡ v.kept = cc in
        let still : complete v.kept ≡ false = sym (ap complete one) ∙ open_ in
        rw
          (
            handle_same manager prim c carrier_epoch has_crypto plaindata kind v.kept asked'
                v.is_current v.hashed,
            still,
            (==_iff v.kept.carrier_epoch carrier_epoch).1 v.carried,
            v.answered,
            v.numbered,
          )
          refl

  calls-Answers :
      (carrier_epoch epoch : ℕ) (has_v2 : Bool) (plaindata response : Bytes)
      (c : ServerRekeyCoordinator M X) (ks : List Call)
      → StaysOpen c ks
      → Answers carrier_epoch epoch has_v2 plaindata response c
      → IsOpen (calls c ks) × Answers carrier_epoch epoch has_v2 plaindata response (calls c ks)
  calls-Answers carrier_epoch epoch has_v2 plaindata response c [] o v = (o, v)
  calls-Answers carrier_epoch epoch has_v2 plaindata response c (k ∷ ks) (o, os) v =
      calls-Answers carrier_epoch epoch has_v2 plaindata response (call c k) ks os
        (call-Answers carrier_epoch epoch has_v2 plaindata response c k o v)

  -- A request that was answered is answered with the same response and epoch when it comes again
  -- under the same carrier epoch, and nothing changes, after any sequence of calls of Handle,
  -- ActivateSendEpoch and ObservePeerEpoch that leaves the transaction incomplete at each point.
  pub handle_again :
      (c : ServerRekeyCoordinator M X) (carrier_epoch : ℕ) (has_crypto : Bool)
      (plaindata response : Bytes) (epoch : ℕ) (ks : List Call)
      → (handle manager prim c carrier_epoch has_crypto plaindata).1 ≡ reply response epoch
      → StaysOpen (handle manager prim c carrier_epoch has_crypto plaindata).0 ks
      → let later = calls (handle manager prim c carrier_epoch has_crypto plaindata).0 ks in
        handle manager prim later carrier_epoch has_crypto plaindata ≡ (later, reply response epoch)
  handle_again c carrier_epoch has_crypto plaindata response epoch ks q os =
      let c' : ServerRekeyCoordinator M X =
        (handle manager prim c carrier_epoch has_crypto plaindata).0 in
      let (kind, e) = asked manager prim c carrier_epoch has_crypto plaindata response epoch q in
      let (t, f, same, answered, numbered, carried, open_, hashed) =
        remembered manager prim c carrier_epoch plaindata response epoch
          (handle manager prim c carrier_epoch has_crypto plaindata)
          (handle-Remembers manager prim c carrier_epoch has_crypto plaindata) q in
      let (o, v) = calls-Answers carrier_epoch epoch c.has_v2 plaindata response c' ks os (record {
        kept = t;
        is_current = f;
        version = same;
        answered = answered;
        numbered = numbered;
        carried = carried;
        hashed = hashed;
      }) in
      answers_again carrier_epoch epoch c.has_v2 plaindata response (calls c' ks) has_crypto kind e
        o v
