-- ===== src/Rekey/Client/Exchange.antt =====
-- The client's requests and what it takes for their answer.
use tun_go.Base.{
  ℕ, ◌+◌, ◌≤◌, ◌≡◌, ◌≢◌, ◌⊎◌, inl, inr, refl, ap, ◌∙◌, ◌∷◌, ◌++◌, true, false, none, Option-cases,
  Bytes, length, take, drop, length-take, copy_at, copy_at-fills, length-copy_at,
  drop-append_of_length, ok, arith,
}
use tun_go.ServicePacket
use tun_go.ServicePacket.{parse}
use tun_go.Rekey.StateMachine.{EpochManager, send_epoch, ready_for_rekey}
use tun_go.Rekey.Client.{
  ClientPrimitives, ClientRekeyCoordinator, init_packet, write_init, write_init_v1, build_init_v1,
  maybe_build_rekey_init, handle_rekey_ack, handle_rekey_ack_v1, handle_rekey_ack_v2_locked,
}

module _ {M X : Type 0} (manager : EpochManager M) (prim : ClientPrimitives X) where
  stray_ack_v1 :
      (c : ClientRekeyCoordinator M X) (carrier_epoch : ℕ) (plaindata : Bytes)
      → (carrier_epoch ≢ c.pending_carrier_epoch) ⊎ (c.has_pending_private_key ≡ false)
      → handle_rekey_ack_v1 manager prim c carrier_epoch plaindata ≡ (c, ok false)
  unfolding handle_rekey_ack_v1
  stray_ack_v1 c carrier_epoch plaindata stray = elim (Option-cases (parse plaindata)) [
    | inl e ↦ rw (e, handle_rekey_ack_v1) refl
    | inr (kind, e) ↦ rw (e, handle_rekey_ack_v1) (ground arith)
  ]

  stray_ack_v2 :
      (c : ClientRekeyCoordinator M X) (carrier_epoch : ℕ) (plaindata : Bytes)
      → (carrier_epoch ≢ c.pending_carrier_epoch) ⊎ (c.pending_v2_init ≡ none)
      → handle_rekey_ack_v2_locked manager prim c carrier_epoch plaindata ≡ (c, ok false)
  unfolding handle_rekey_ack_v2_locked
  stray_ack_v2 c carrier_epoch plaindata stray = elim (Option-cases (parse plaindata)) [
    | inl e ↦ rw (e, handle_rekey_ack_v2_locked) refl
    | inr (kind, e) ↦ elim (Option-cases c.pending_v2_init) [
      | inl f ↦ ground (arith, e, f)
      | inr (message, f) ↦ ground (arith, e, f)
    ]
  ]

  -- An acknowledgement under another epoch than the request went out with, or with no request
  -- pending, is refused without an error and changes nothing, in V1 and in V2.
  pub stray_ack_ignored :
      (c : ClientRekeyCoordinator M X) (carrier_epoch : ℕ) (plaindata : Bytes)
      → (carrier_epoch ≢ c.pending_carrier_epoch)
        ⊎ ((c.has_pending_private_key ≡ false) × (c.pending_v2_init ≡ none))
      → handle_rekey_ack manager prim c carrier_epoch plaindata ≡ (c, ok false)
  unfolding handle_rekey_ack
  stray_ack_ignored c carrier_epoch plaindata stray = elim stray [
    | inl other ↦ ground (
      arith,
      stray_ack_v1 c carrier_epoch plaindata (inl other),
      stray_ack_v2 c carrier_epoch plaindata (inl other),
    )
    | inr (no_key, no_message) ↦ ground (
      arith,
      stray_ack_v1 c carrier_epoch plaindata (inr no_key),
      stray_ack_v2 c carrier_epoch plaindata (inr no_message),
    )
  ]

pub headed :
    (kind : ℕ) (payload : Bytes)
    → 3 ≤ length payload
    → ServicePacket.encode kind payload ≡ ok (255 ∷ (1 ∷ (kind ∷ drop 3 payload)))
unfolding ServicePacket.encode
headed kind payload long = ground arith

module _ {M X : Type 0} where
  written :
      (c : ClientRekeyCoordinator M X) (kind : ℕ) (body dst : Bytes)
      → 3 + length body ≤ length dst
      → write_init c kind body dst ≡ (c, init_packet (255 ∷ (1 ∷ (kind ∷ body))))
  unfolding write_init
  written c kind body dst room =
      let front : Bytes = take (3 + length body) dst in
      let size : length front ≡ 3 + length body =
        omega (arith, length-take (3 + length body) dst) in
      let filled : copy_at 3 body front ≡ take 3 front ++ body =
        copy_at-fills 3 body front (omega (arith, size)) in
      let behind : drop 3 (copy_at 3 body front) ≡ body =
        ap (λ (x : Bytes). drop 3 x) filled
        ∙ drop-append_of_length 3 (take 3 front) body (omega (arith, length-take 3 front, size)) in
      let encoded : ServicePacket.encode kind (copy_at 3 body front)
          ≡ ok (255 ∷ (1 ∷ (kind ∷ body))) =
        headed kind (copy_at 3 body front) (omega (arith, length-copy_at 3 body front, size))
        ∙ ap (λ (x : Bytes). ok (255 ∷ (1 ∷ (kind ∷ x)))) behind in
      rw (encoded, write_init) refl

module _ {M X : Type 0} (manager : EpochManager M) (prim : ClientPrimitives X) where
  pending_init :
      (c : ClientRekeyCoordinator M X) (dst : Bytes) {public_key : Bytes}
      → c.has_pending_private_key ≡ true
      → send_epoch c.controller ≡ c.pending_carrier_epoch
      → prim.common.x25519 c.pending_private_key prim.basepoint ≡ ok public_key
      → length public_key ≡ 32
      → 35 ≤ length dst
      → build_init_v1 manager prim c dst ≡ (c, init_packet (255 ∷ (1 ∷ (2 ∷ public_key))))
  unfolding build_init_v1 write_init_v1
  pending_init c dst {public_key} e f g size room =
      ground (arith, g, written c 2 public_key dst (omega arith))

  -- While a V1 request is pending under the epoch that the client sends with, each attempt that is
  -- due sends the request with the public key of the same private key again, and changes nothing
  -- but the time of the next attempt.
  pub pending_request_repeated :
      (c : ClientRekeyCoordinator M X) (now : ℕ) (dst : Bytes) {public_key : Bytes}
      → c.has_v2 ≡ false
      → c.has_crypto ≡ true
      → c.rotate_at ≤ now
      → ready_for_rekey c.controller ≡ true
      → c.has_pending_private_key ≡ true
      → send_epoch c.controller ≡ c.pending_carrier_epoch
      → prim.common.x25519 c.pending_private_key prim.basepoint ≡ ok public_key
      → length public_key ≡ 32
      → 35 ≤ length dst
      → maybe_build_rekey_init manager prim c now dst
        ≡ (record c { rotate_at = now + c.interval }, init_packet (255 ∷ (1 ∷ (2 ∷ public_key))))
  unfolding maybe_build_rekey_init
  pending_request_repeated c now dst no_v2 crypto due ready e f g size room =
      ground (arith, pending_init (record c { rotate_at = now + c.interval }) dst e f g size room)
