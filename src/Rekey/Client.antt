-- ===== src/Rekey/Client.antt =====
-- src/internal/protocol/rekey/initiator.go: the client's side of a rekey exchange. The controller is
-- the state machine of Rekey.StateMachine; time is a natural number. The mutex makes each method one
-- step; the controller is not nil, and the message that `StartRekeyV2` returns is not nil.
pub mod Exchange
pub mod Lifecycle
mod Tests
use tun_go.Base.{
  ℕ, ◌+◌, Bool, true, false, ◌&&◌, ◌||◌, not, Option, none, some, ltb, leb, ◌==◌, if◌then◌else◌,
  Bytes, length, take, drop, copy_at, Result, Error, ok, err, carrier_epoch_changed,
}
use tun_go.Core.{zero_bytes}
use tun_go.ServicePacket
use tun_go.ServicePacket.{parse, rekey_init, rekey_ack, rekey_init_v2, rekey_ack_v2}
use tun_go.Rekey.StateMachine
use tun_go.Rekey.StateMachine.{
  EpochManager, StateMachine, current_keys, ready_for_rekey, send_epoch, start_rekey,
}
use tun_go.Rekey.Server.{
  Primitives, service_header_len, v1_public_key_len, v1_packet_len, derive_label_c2s,
  derive_label_s2c, rekey_v2_prologue,
}

-- What the client calls beside the server's primitives.
pub record ClientPrimitives (X : Type 0) : Type 0 where
  pub common : Primitives X
  pub basepoint : Bytes
  pub start_rekey_v2 : X → Bytes → X × Result Bytes
  pub finish_rekey_v2 : X → Bytes → X × Result (Bytes × Bytes)

pub record ClientRekeyCoordinator (M X : Type 0) : Type 0 where
  pub has_crypto : Bool  -- `c.crypto != nil`
  pub controller : StateMachine M
  pub has_v2 : Bool  -- `c.v2 != nil`
  pub interval : ℕ
  pub rotate_at : ℕ
  pub pending_private_key : Bytes  -- [32]byte
  pub pending_v2_init : Option Bytes
  pub pending_carrier_epoch : ℕ  -- uint16
  pub has_pending_private_key : Bool
  pub world : X

-- `(payload, ok, err)`
pub data Init : Type 0 where
  no_init : Init
  init_packet : Bytes → Init
  init_failed : Error → Init

module _ {M X : Type 0} where
  unfoldable pub clear_pending_private_key_locked :
      ClientRekeyCoordinator M X → ClientRekeyCoordinator M X
  clear_pending_private_key_locked c = record c {
    pending_private_key = zero_bytes c.pending_private_key;
    pending_carrier_epoch = 0;
    has_pending_private_key = false;
  }

  -- The header and body in the front of `dst`.
  unfoldable pub write_init :
      ClientRekeyCoordinator M X → ℕ → Bytes → Bytes → ClientRekeyCoordinator M X × Init
  write_init c kind body dst =
      let payload = copy_at service_header_len body (take (service_header_len + length body) dst) in
      elim (ServicePacket.encode kind payload) [
        | err e ↦ (c, init_failed e)
        | ok packet ↦ (c, init_packet packet)
      ]

  unfoldable pub write_init_v1 :
      ClientRekeyCoordinator M X → Bytes → Result Bytes → ClientRekeyCoordinator M X × Init
  write_init_v1 c dst (err e) = (c, init_failed e)
  write_init_v1 c dst (ok public_key) =
      if not (length public_key == v1_public_key_len)
      then (c, no_init)
      else write_init c rekey_init public_key dst

  unfoldable pub write_init_v2 :
      ClientRekeyCoordinator M X → Bytes → Bytes → ClientRekeyCoordinator M X × Init
  write_init_v2 c dst message =
      if ltb (length dst) (service_header_len + length message)
      then (c, no_init)
      else write_init c rekey_init_v2 message dst

module _ {M X : Type 0} (manager : EpochManager M) (prim : ClientPrimitives X) where
  unfoldable pub build_init_v1 :
      ClientRekeyCoordinator M X → Bytes → ClientRekeyCoordinator M X × Init
  build_init_v1 c dst =
      if c.has_pending_private_key
      then (if not (send_epoch c.controller == c.pending_carrier_epoch)
          then (c, init_failed carrier_epoch_changed)
          else write_init_v1 c dst (prim.common.x25519 c.pending_private_key prim.basepoint))
      else (let (x, generated) = prim.common.generate_key_pair c.world in
          elim generated [
            | err e ↦ (record c { world = x }, init_failed e)
            | ok pair ↦
                write_init_v1
                  (record c {
                    world = x;
                    pending_private_key = pair.1;
                    pending_carrier_epoch = send_epoch c.controller;
                    has_pending_private_key = true;
                  })
                  dst (ok pair.0)
          ])

  unfoldable pub build_rekey_init_v2_locked :
      ClientRekeyCoordinator M X → Bytes → ClientRekeyCoordinator M X × Init
  build_rekey_init_v2_locked c dst = elim c.pending_v2_init [
    | some message ↦
        if not (send_epoch c.controller == c.pending_carrier_epoch)
        then (c, init_failed carrier_epoch_changed)
        else write_init_v2 c dst message
    | none ↦
        let (x, started) =
          prim.start_rekey_v2 c.world (rekey_v2_prologue manager prim.common c.controller) in
        elim started [
          | err e ↦ (record c { world = x }, init_failed e)
          | ok message ↦
              write_init_v2
                (record c {
                  world = x;
                  pending_v2_init = some message;
                  pending_carrier_epoch = send_epoch c.controller;
                })
                dst message
        ]
  ]

  unfoldable pub maybe_build_rekey_init :
      ClientRekeyCoordinator M X → ℕ → Bytes → ClientRekeyCoordinator M X × Init
  maybe_build_rekey_init c now dst =
      if not c.has_v2 && not c.has_crypto
      then (c, no_init)
      else if ltb now c.rotate_at
      then (c, no_init)
      else (let due = record c { rotate_at = now + c.interval } in
          if not (ready_for_rekey c.controller)
          then (due, no_init)
          else if c.has_v2
          then build_rekey_init_v2_locked due dst
          else if ltb (length dst) v1_packet_len
          then (due, no_init)
          else build_init_v1 due dst)

  -- The new keys go to the controller, and it sends with them at once.
  unfoldable pub switch :
      ClientRekeyCoordinator M X → Bytes → Bytes → ClientRekeyCoordinator M X × Result Bool
  switch c c2s s2c =
      let (controller, started) = start_rekey manager c.controller c2s s2c in
      elim started [
        | err e ↦ (record c { controller = controller }, err e)
        | ok epoch ↦ (
          record c { controller = StateMachine.activate_send_epoch manager controller epoch },
          ok true,
        )
      ]

  unfoldable pub switch_v1 :
      ClientRekeyCoordinator M X → Bytes → Bytes → ClientRekeyCoordinator M X × Result Bool
  switch_v1 c c2s s2c =
      let (c', switched) = switch c c2s s2c in
      elim switched [
        | err e ↦ (c', err e)
        | ok done ↦ (clear_pending_private_key_locked c', ok done)
      ]

  -- A V1 acknowledgement that passed the guards.
  unfoldable pub accept_ack_v1 :
      ClientRekeyCoordinator M X → Bytes → ClientRekeyCoordinator M X × Result Bool
  accept_ack_v1 c plaindata =
      let server_pub = take v1_public_key_len (drop service_header_len plaindata) in
      elim (prim.common.x25519 c.pending_private_key server_pub) [
        | err e ↦ (c, err e)
        | ok shared ↦
            elim (prim.common.derive_key shared (current_keys c.controller).0 derive_label_c2s) [
              | err e ↦ (c, err e)
              | ok c2s ↦
                  elim (prim.common.derive_key shared (current_keys c.controller).1
                    derive_label_s2c) [ err e ↦ (c, err e) | ok s2c ↦ switch_v1 c c2s s2c ]
            ]
      ]

  unfoldable pub handle_rekey_ack_v2_locked :
      ClientRekeyCoordinator M X → ℕ → Bytes → ClientRekeyCoordinator M X × Result Bool
  handle_rekey_ack_v2_locked c carrier_epoch plaindata = elim (parse plaindata) [
    | none ↦ (c, ok false)
    | some kind ↦ elim c.pending_v2_init [
      | none ↦ (c, ok false)
      | some message ↦
          if not (kind == rekey_ack_v2) || leb (length plaindata) service_header_len
          then (c, ok false)
          else if not (carrier_epoch == c.pending_carrier_epoch)
          then (c, ok false)
          else (let (x, finished) =
                prim.finish_rekey_v2 c.world (drop service_header_len plaindata) in
              let c' = record c { world = x; pending_v2_init = none; pending_carrier_epoch = 0 } in
              elim finished [ err e ↦ (c', err e) | ok keys ↦ switch c' keys.0 keys.1 ])
    ]
  ]

  unfoldable pub handle_rekey_ack_v1 :
      ClientRekeyCoordinator M X → ℕ → Bytes → ClientRekeyCoordinator M X × Result Bool
  handle_rekey_ack_v1 c carrier_epoch plaindata = elim (parse plaindata) [
    | none ↦ (c, ok false)
    | some kind ↦
        if not (kind == rekey_ack)
          || (not (length plaindata == v1_packet_len) || not c.has_pending_private_key)
        then (c, ok false)
        else if not (carrier_epoch == c.pending_carrier_epoch)
        then (c, ok false)
        else accept_ack_v1 c plaindata
  ]

  unfoldable pub handle_rekey_ack :
      ClientRekeyCoordinator M X → ℕ → Bytes → ClientRekeyCoordinator M X × Result Bool
  handle_rekey_ack c carrier_epoch plaindata =
      if not c.has_v2 && not c.has_crypto
      then (c, ok false)
      else if c.has_v2
      then handle_rekey_ack_v2_locked c carrier_epoch plaindata
      else handle_rekey_ack_v1 c carrier_epoch plaindata
