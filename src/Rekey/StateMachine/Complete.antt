-- ===== src/Rekey/StateMachine/Complete.antt =====
-- A whole rekey of a UDP peer: start, activate, and the peer's epoch observed.
use tun_go.Base.{ℕ, ◌+◌, ◌≡◌, refl, sym, ap, ◌∙◌, Bytes, length, arith, ◌≤◌, ◌<◌}
use tun_go.Aead.{Aead, Laws}
use tun_go.Udp.Crypto.{Crypto, retire_previous_epoch}
use tun_go.Rekey.StateMachine.{
  Keys, phase_idle, phase_staged, StateMachine, start_rekey, retire_previous_epoch_locked,
  activate_send_epoch, observe_peer_epoch,
}
use tun_go.Rekey.StateMachine.Phases.{activate_staged}
use tun_go.Rekey.StateMachine.OverUdp.{
  udp_manager, Joint, start_rekey_succeeds, activate-Joint, start-Joint, observe-Joint,
}

module _ {Cipher : Type 0} (a : Aead Cipher) where
  confirmed :
      (c : StateMachine (Crypto Cipher)) (epoch seen : ℕ)
      → c.phase ≡ phase_staged
      → epoch ≡ c.staged.epoch
      → epoch ≤ seen
      → ((observe_peer_epoch
            (udp_manager a)
            (activate_send_epoch (udp_manager a) c epoch)
            seen).phase
          ≡ phase_idle)
        × ((observe_peer_epoch
              (udp_manager a)
              (activate_send_epoch (udp_manager a) c epoch)
              seen).current
            ≡ c.staged)
  unfolding retire_previous_epoch_locked observe_peer_epoch retire_previous_epoch
  confirmed c epoch seen p e le = rw (e, activate_staged (udp_manager a) c p) (ground arith)

  -- From an idle machine over the UDP crypto in the joint invariant, below the last epoch: after
  -- StartRekey with keys of 32 bytes, ActivateSendEpoch of the epoch it returned and an
  -- ObservePeerEpoch of that epoch or a later one, the machine is idle again, its current keys are
  -- the new ones under the next epoch, the crypto sends with that epoch, and the joint invariant
  -- holds.
  pub rekey_completes :
      (c : StateMachine (Crypto Cipher)) (c2s s2c : Bytes) (seen : ℕ)
      → Laws a
      → Joint c
      → c.phase ≡ phase_idle
      → c.current.epoch < 65000
      → length c2s ≡ 32
      → length s2c ≡ 32
      → c.current.epoch + 1 ≤ seen
      → (c' : StateMachine (Crypto Cipher)) × (observe_peer_epoch
            (udp_manager a)
            (activate_send_epoch
              (udp_manager a)
              (start_rekey (udp_manager a) c c2s s2c).0
              (c.current.epoch + 1))
            seen
          ≡ c')
        × (c'.phase ≡ phase_idle)
        × (c'.current ≡ record { c2s = c2s; s2c = s2c; epoch = c.current.epoch + 1 })
        × (c'.epoch_manager.send_epoch ≡ c.current.epoch + 1)
        × Joint c'
  rekey_completes c c2s s2c seen laws v p low k l later =
      let (_, staged, _, keys) = start_rekey_succeeds a c c2s s2c laws v p low k l in
      let started : StateMachine (Crypto Cipher) = (start_rekey (udp_manager a) c c2s s2c).0 in
      let next : c.current.epoch + 1 ≡ started.staged.epoch =
        ap (λ (x : Keys). x.epoch) (sym keys) in
      let (idle, made) = confirmed started (c.current.epoch + 1) seen staged next later in
      let activated : StateMachine (Crypto Cipher) =
        activate_send_epoch (udp_manager a) started (c.current.epoch + 1) in
      let finished : StateMachine (Crypto Cipher) =
        observe_peer_epoch (udp_manager a) activated seen in
      let joint : Joint finished =
        observe-Joint a activated seen
          (activate-Joint a started (c.current.epoch + 1) (start-Joint a c c2s s2c v)) in
      let renewed : finished.current
          ≡ record { c2s = c2s; s2c = s2c; epoch = c.current.epoch + 1 } =
        made ∙ keys in
      (finished, refl, idle, renewed, joint.sends ∙ ap {A = Keys} (λ x. x.epoch) renewed, joint)
