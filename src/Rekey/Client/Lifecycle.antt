-- ===== src/Rekey/Client/Lifecycle.antt =====
-- src/internal/protocol/rekey/initiator.go: how a client's coordinator begins, and what it passes on to
-- its controller.
use tun_go.Base.{
  ℕ, ◌+◌, ◌≡◌, Bool, false, not, none, ltb, ◌||◌, ◌&&◌, if◌then◌else◌, Bytes, replicate, arith,
}
use tun_go.Rekey.StateMachine
use tun_go.Rekey.StateMachine.{EpochManager, StateMachine}
use tun_go.Rekey.Client.{
  ClientPrimitives, ClientRekeyCoordinator, maybe_build_rekey_init, build_init_v1, write_init_v1,
  write_init, build_rekey_init_v2_locked, write_init_v2,
}

module _ {M X : Type 0} where
  unfoldable pub new_client_rekey_coordinator :
      Bool → StateMachine M → Bool → ℕ → ℕ → X → ClientRekeyCoordinator M X
  new_client_rekey_coordinator has_crypto controller has_v2 interval now world = record {
    has_crypto = has_crypto;
    controller = controller;
    has_v2 = has_v2;
    interval = interval;
    rotate_at = now + interval;
    pending_private_key = replicate 32 0;
    pending_v2_init = none;
    pending_carrier_epoch = 0;
    has_pending_private_key = false;
    world = world;
  }

module _ {M X : Type 0} (manager : EpochManager M) where
  unfoldable pub observe_peer_epoch : ClientRekeyCoordinator M X → ℕ → ClientRekeyCoordinator M X
  observe_peer_epoch c epoch = record c {
    controller = StateMachine.observe_peer_epoch manager c.controller epoch;
  }

  unfoldable pub activate_send_epoch : ClientRekeyCoordinator M X → ℕ → ClientRekeyCoordinator M X
  activate_send_epoch c epoch = record c {
    controller = StateMachine.activate_send_epoch manager c.controller epoch;
  }

module _ {M X : Type 0} (manager : EpochManager M) (prim : ClientPrimitives X) where
  -- An attempt is made only when it is due, and then the next one is due an interval later, whatever
  -- becomes of this one.
  pub rotate_at-maybe_build_rekey_init :
      (c : ClientRekeyCoordinator M X) (now : ℕ) (dst : Bytes)
      → (maybe_build_rekey_init manager prim c now dst).0.rotate_at ≡ (
          if (not c.has_v2 && not c.has_crypto) || ltb now c.rotate_at
          then c.rotate_at
          else now + c.interval)
  unfolding maybe_build_rekey_init build_init_v1 write_init_v1 write_init build_rekey_init_v2_locked
      write_init_v2
  rotate_at-maybe_build_rekey_init c now dst = ground arith
