-- ===== src/Rekey/Server/Tests.antt =====
-- A server over the toy cipher that answers one request, again and not after its completion.
use tun_go.Base.{
  ℕ, ◌+◌, ◌++◌, ◌≡◌, ◌⊎◌, refl, List, [], ◌∷◌, true, false, none, some, Bytes, take, replicate, ok,
  copy_at,
}
use tun_go.Aead.Toy.{toy}
use tun_go.ServicePacket
use tun_go.ServicePacket.{parse}
use tun_go.Udp.Crypto
use tun_go.Udp.Crypto.{Crypto, new_crypto}
use tun_go.Udp.Ring.{oldest, new_epoch_ring, len}
use tun_go.Rekey.StateMachine.{new_state_machine, ready_for_rekey, start_rekey}
use tun_go.Rekey.StateMachine.OverUdp.{udp_manager}
use tun_go.Rekey.Server.{
  Primitives, ServerRekeyTransaction, complete, ServerRekeyCoordinator, no_reply, reply,
  request_kind, derive_keys, rekey_v1, make_keys, response_type, answer, stage, begin, handle,
  mark_activated, activate_send_epoch, same_bytes,
}
use tun_go.Rekey.Server.Transactions.{handle_pending}
use tun_go.Rekey.Server.Repeats.{Call, StaysOpen, calls, handle_again}

abbrev toy_primitives : Primitives ℕ
toy_primitives = record {
  sum256 = λ b. take 32 (b ++ replicate 32 0);
  x25519 = λ private_key public_key. ok private_key;
  generate_key_pair = λ x. (x + 1, ok (replicate 32 9, replicate 32 8));
  derive_key = λ shared key label. ok (replicate 32 4);
  respond_rekey_v2 = λ x prologue message. (x, ok (message, replicate 32 4, replicate 32 4));
}

abbrev server : ServerRekeyCoordinator (Crypto ℕ) ℕ
server = record {
  controller =
      new_state_machine (new_crypto (replicate 32 7) 1 2 true) (replicate 32 1) (replicate 32 2);
  has_v2 = false;
  current = none;
  world = 0;
}

abbrev request : Bytes
request = 255 ∷ 1 ∷ 2 ∷ replicate 32 6

abbrev response : Bytes
response = 255 ∷ 1 ∷ 3 ∷ replicate 32 9

answered : (handle (udp_manager toy) toy_primitives server 0 true request).1 ≡ reply response 1
unfolding handle request_kind parse begin ready_for_rekey new_state_machine make_keys rekey_v1
    derive_keys stage start_rekey Crypto.stage_epoch new_crypto answer ServicePacket.encode
    response_type Crypto.would_evict_send oldest new_epoch_ring len copy_at
answered = refl

abbrev once : ServerRekeyCoordinator (Crypto ℕ) ℕ
once = (handle (udp_manager toy) toy_primitives server 0 true request).0

-- The server begins to send with the new keys; then another request comes in.
abbrev between : List Call
between = Call.activate 1 ∷ Call.request 0 true (255 ∷ 1 ∷ 2 ∷ replicate 32 7) ∷ []

kept_open : StaysOpen (udp_manager toy) toy_primitives once between
unfolding handle request_kind parse begin ready_for_rekey new_state_machine make_keys rekey_v1
    derive_keys stage start_rekey Crypto.stage_epoch new_crypto answer ServicePacket.encode
    response_type Crypto.would_evict_send oldest new_epoch_ring len copy_at complete
    activate_send_epoch mark_activated same_bytes
kept_open = ((_, refl, refl), ((_, refl, refl), (_, refl, refl)))

abbrev later : ServerRekeyCoordinator (Crypto ℕ) ℕ
later = calls (udp_manager toy) toy_primitives once between

handle_again_example :
    handle (udp_manager toy) toy_primitives later 0 true request ≡ (later, reply response 1)
handle_again_example =
    handle_again (udp_manager toy) toy_primitives server 0 true request response 1 between answered
      kept_open

-- A transaction for that request.
abbrev pending : ServerRekeyTransaction
pending = record {
  request_hash = take 32 (request ++ replicate 32 0);
  response = response;
  carrier_epoch = 0;
  epoch = 1;
  send_activated = true;
  peer_observed = false;
}

abbrev busy : ServerRekeyCoordinator (Crypto ℕ) ℕ
busy = record server { current = some pending }

handle_pending_example :
    (handle (udp_manager toy) toy_primitives busy 0 true request ≡ (busy, no_reply))
    ⊎ (handle (udp_manager toy) toy_primitives busy 0 true request ≡ (busy, reply response 1))
handle_pending_example =
    handle_pending (udp_manager toy) toy_primitives busy 0 true request pending refl
      (unfold complete in refl)

abbrev finished : ServerRekeyTransaction
finished = record pending { peer_observed = true }

abbrev settled : ServerRekeyCoordinator (Crypto ℕ) ℕ
settled = record server { current = some finished }
