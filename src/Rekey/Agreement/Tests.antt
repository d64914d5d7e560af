-- ===== src/Rekey/Agreement/Tests.antt =====
-- A key agreement by addition, and one exchange with it.
use tun_go.Base.{ℕ, ◌+◌, ◌++◌, true, false, none, Bytes, take, replicate, get_or, ok}
use tun_go.Udp.Crypto.{Crypto, new_crypto}
use tun_go.ServicePacket
use tun_go.Udp.Crypto
use tun_go.Rekey.StateMachine.{new_state_machine}
use tun_go.Rekey.Server.{ServerRekeyCoordinator}
use tun_go.Rekey.Client.{ClientPrimitives, ClientRekeyCoordinator}

abbrev sum : Bytes → Bytes → Bytes
sum a b = replicate 32 (get_or a 0 0 + get_or b 0 0)

abbrev additive : ClientPrimitives ℕ
additive = record {
  common = record {
    sum256 = λ b. take 32 (b ++ replicate 32 0);
    x25519 = λ a b. ok (sum a b);
    generate_key_pair = λ x. (x + 1, ok (replicate 32 5, replicate 32 5));
    derive_key = λ shared key label. ok (sum (sum shared key) label);
    respond_rekey_v2 = λ x prologue message. (x, ok (message, prologue, prologue));
  };
  basepoint = replicate 32 0;
  start_rekey_v2 = λ x prologue. (x, ok prologue);
  finish_rekey_v2 = λ x message. (x, ok (message, message));
}

abbrev client : ClientRekeyCoordinator (Crypto ℕ) ℕ
client = record {
  has_crypto = true;
  controller =
      new_state_machine (new_crypto (replicate 32 7) 1 2 false) (replicate 32 1) (replicate 32 2);
  has_v2 = false;
  interval = 120;
  rotate_at = 500;
  pending_private_key = replicate 32 8;
  pending_v2_init = none;
  pending_carrier_epoch = 0;
  has_pending_private_key = true;
  world = 0;
}

abbrev server : ServerRekeyCoordinator (Crypto ℕ) ℕ
server = record {
  controller =
      new_state_machine (new_crypto (replicate 32 7) 2 1 true) (replicate 32 1) (replicate 32 2);
  has_v2 = false;
  current = none;
  world = 0;
}
