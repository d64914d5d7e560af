-- ===== src/Rekey/Tests.antt =====
-- The control plane over the toy cipher, and its theorems at those machines.
use tun_go.Base.{ℕ, false, ◌≡◌, ◌+◌, refl, Bytes, replicate, arith}
use tun_go.Aead.Toy.{toy, toy-Laws}
use tun_go.Udp.Crypto.{Crypto, new_crypto}
use tun_go.Rekey.StateMachine.{
  StateMachine, phase_idle, new_state_machine, start_rekey, activate_send_epoch, observe_peer_epoch,
  start, step,
}
use tun_go.Rekey.StateMachine.Phases.{IsClean, new_state_machine-IsClean, step-IsClean}
use tun_go.Rekey.StateMachine.OverUdp.{udp_manager, Joint, new-Joint, step-Joint}
use tun_go.Rekey.StateMachine.Complete.{rekey_completes}

abbrev old_key : Bytes
old_key = replicate 32 1

abbrev new_c2s : Bytes
new_c2s = replicate 32 2

abbrev new_s2c : Bytes
new_s2c = replicate 32 3

abbrev machine : StateMachine (Crypto ℕ)
machine = new_state_machine (new_crypto (replicate 32 7) 1 2 false) old_key old_key

machine-Joint : Joint machine
machine-Joint = new-Joint toy (replicate 32 7) old_key old_key 1 2 false

machine-IsClean : IsClean machine
machine-IsClean = new_state_machine-IsClean (new_crypto (replicate 32 7) 1 2 false) old_key old_key

machine_idle : machine.phase ≡ phase_idle
unfolding new_state_machine
machine_idle = refl

machine_epoch : machine.current.epoch ≡ 0
unfolding new_state_machine
machine_epoch = refl

step-IsClean_example : IsClean (step (udp_manager toy) machine (start new_c2s new_s2c))
step-IsClean_example =
    step-IsClean (udp_manager toy) machine (start new_c2s new_s2c) machine-IsClean

step-Joint_example : Joint (step (udp_manager toy) machine (start new_c2s new_s2c))
step-Joint_example = step-Joint toy machine (start new_c2s new_s2c) machine-Joint

rekey_completes_example :
    (c' : StateMachine (Crypto ℕ)) × (observe_peer_epoch
        (udp_manager toy)
        (activate_send_epoch
          (udp_manager toy)
          (start_rekey (udp_manager toy) machine new_c2s new_s2c).0
          (machine.current.epoch + 1))
        1
      ≡ c')
    × (c'.phase ≡ phase_idle)
    × (c'.current ≡ record { c2s = new_c2s; s2c = new_s2c; epoch = machine.current.epoch + 1 })
    × (c'.epoch_manager.send_epoch ≡ machine.current.epoch + 1)
    × Joint c'
rekey_completes_example =
    rekey_completes toy machine new_c2s new_s2c 1 toy-Laws machine-Joint machine_idle
      (omega (arith, machine_epoch)) refl refl (omega (arith, machine_epoch))
