-- ===== src/Rekey/Agreement/Switching.antt =====
-- What the client does with new keys (src/internal/protocol/rekey/initiator.go).
use tun_go.Base.{ℕ, ◌≡◌, refl, Bool, true, false, Bytes, Result, Error, ok, err, arith}
use tun_go.Core.{zero_bytes}
use tun_go.Rekey.StateMachine
use tun_go.Rekey.StateMachine.{
  EpochManager, StateMachine, current_keys, ready_for_rekey, start_rekey,
}
use tun_go.Rekey.Client.{
  ClientPrimitives, ClientRekeyCoordinator, clear_pending_private_key_locked, switch, switch_v1,
}

module _ {M X : Type 0} (manager : EpochManager M) (prim : ClientPrimitives X) where
  -- The client with new keys: its controller has staged and activated them, and the private key of
  -- the request is gone.
  abbrev pub Switched :
      ClientRekeyCoordinator M X → Bytes → Bytes → ClientRekeyCoordinator M X × Result Bool → Type 0
  Switched c c2s s2c (c', err e) =
      ((start_rekey manager c.controller c2s s2c).1 ≡ err e)
      × (c'.controller ≡ (start_rekey manager c.controller c2s s2c).0)
      × (c'.pending_private_key ≡ c.pending_private_key)
      × (c'.has_pending_private_key ≡ c.has_pending_private_key)
  Switched c c2s s2c (c', ok done) =
      (epoch : ℕ) × ((start_rekey manager c.controller c2s s2c).1 ≡ ok epoch)
      × (c'.controller
          ≡ StateMachine.activate_send_epoch manager (start_rekey manager c.controller c2s s2c).0
              epoch)
      × (c'.pending_private_key ≡ zero_bytes c.pending_private_key)
      × (c'.has_pending_private_key ≡ false)
      × (done ≡ true)

  switch_fails :
      (c : ClientRekeyCoordinator M X) (c2s s2c : Bytes) (e : Error)
      → (start_rekey manager c.controller c2s s2c).1 ≡ err e
      → switch manager prim c c2s s2c
        ≡ (record c { controller = (start_rekey manager c.controller c2s s2c).0 }, err e)
  unfolding switch
  switch_fails c c2s s2c e q = rw (switch, q) refl

  switch_starts :
      (c : ClientRekeyCoordinator M X) (c2s s2c : Bytes) (epoch : ℕ)
      → (start_rekey manager c.controller c2s s2c).1 ≡ ok epoch
      → switch manager prim c c2s s2c ≡ (
        record c {
          controller =
              StateMachine.activate_send_epoch manager
                (start_rekey manager c.controller c2s s2c).0
                epoch;
        },
        ok true,
      )
  unfolding switch
  switch_starts c c2s s2c epoch q = rw (switch, q) refl

  pub switch_v1-Switched :
      (c : ClientRekeyCoordinator M X) (c2s s2c : Bytes)
      → Switched c c2s s2c (switch_v1 manager prim c c2s s2c)
  unfolding switch_v1 clear_pending_private_key_locked
  switch_v1-Switched c c2s s2c = go (start_rekey manager c.controller c2s s2c).1 refl
    where
      go :
          (r : Result ℕ)
          → (start_rekey manager c.controller c2s s2c).1 ≡ r
          → Switched c c2s s2c (switch_v1 manager prim c c2s s2c)
      go (err e) q =
          let on : switch_v1 manager prim c c2s s2c
              ≡ (record c { controller = (start_rekey manager c.controller c2s s2c).0 }, err e) =
            ground (arith, switch_fails c c2s s2c e q) in
          rw on (q, refl, refl, refl)
      go (ok epoch) q =
          let m =
            StateMachine.activate_send_epoch manager (start_rekey manager c.controller c2s s2c).0
              epoch in
          let on : switch_v1 manager prim c c2s s2c
              ≡ (clear_pending_private_key_locked (record c { controller = m }), ok true) =
            ground (arith, switch_starts c c2s s2c epoch q) in
          rw on (epoch, q, refl, refl, refl, refl)
