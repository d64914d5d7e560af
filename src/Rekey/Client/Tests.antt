-- ===== src/Rekey/Client/Tests.antt =====
-- A client over the toy cipher with one request pending.
use tun_go.Base.{ℕ, ◌+◌, ◌++◌, ◌≡◌, refl, ◌∷◌, true, false, none, Bytes, take, replicate, ok}
use tun_go.Udp.Crypto.{Crypto, new_crypto}
use tun_go.Rekey.StateMachine.{new_state_machine, ready_for_rekey, send_epoch}
use tun_go.Rekey.Client.{ClientPrimitives, ClientRekeyCoordinator}

-- The public key of a private key is the private key.
abbrev toy_primitives : ClientPrimitives ℕ
toy_primitives = record {
  common = record {
    sum256 = λ b. take 32 (b ++ replicate 32 0);
    x25519 = λ private_key public_key. ok private_key;
    generate_key_pair = λ x. (x + 1, ok (replicate 32 9, replicate 32 9));
    derive_key = λ shared key label. ok (replicate 32 4);
    respond_rekey_v2 = λ x prologue message. (x, ok (message, replicate 32 4, replicate 32 4));
  };
  basepoint = replicate 32 0;
  start_rekey_v2 = λ x prologue. (x, ok prologue);
  finish_rekey_v2 = λ x message. (x, ok (replicate 32 4, replicate 32 4));
}

abbrev client : ClientRekeyCoordinator (Crypto ℕ) ℕ
client = record {
  has_crypto = true;
  controller =
      new_state_machine (new_crypto (replicate 32 7) 1 2 false) (replicate 32 1) (replicate 32 2);
  has_v2 = false;
  interval = 120;
  rotate_at = 500;
  pending_private_key = replicate 32 8;
  pending_v2_init = none;
  pending_carrier_epoch = 0;
  has_pending_private_key = true;
  world = 0;
}

abbrev stray : Bytes
stray = 255 ∷ 1 ∷ 3 ∷ replicate 32 6

is_ready : ready_for_rekey client.controller ≡ true
unfolding ready_for_rekey new_state_machine
is_ready = refl

sends_zero : send_epoch client.controller ≡ 0
unfolding send_epoch new_state_machine
sends_zero = refl
