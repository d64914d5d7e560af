-- ===== src/Noise/Rekey/Tests.antt =====
-- A V2 rekey over a Noise library that sends its states as messages.
use tun_go.Base.{
  ℕ, ◌≡◌, refl, [], ◌∷◌, Bool, true, none, some, ◌==◌, if◌then◌else◌, Bytes, Option, ok,
}
use tun_go.Ip.{same}
use tun_go.Noise.LoadMonitor.{new_load_monitor}
use tun_go.Noise.Handshake.{
  NoiseLib, IkHandshake, new_ik_handshake_client, new_ik_handshake_server, contains_capability,
  supports, validate_client_config, validate_server_config, lookup, extract_session_material,
}
use tun_go.Noise.Rekey.{start_rekey_v2, finish_rekey_v2, respond_rekey_v2, respond_known, respond}
use tun_go.Noise.Rekey.Agreement.{
  IsEntitled, respond_rekey_v2-IsEntitled, IkRekey, finish_rekey_v2-start_rekey_v2,
}

abbrev client_pub : Bytes
client_pub = 1 ∷ []

abbrev server_pub : Bytes
server_pub = 2 ∷ []

abbrev keys : Bytes × Bytes
keys = (3 ∷ [], 4 ∷ [])

abbrev lib : NoiseLib ℕ
lib = record {
  new_initiator = λ priv pub_key peer prologue seed. ok 0;
  new_responder = λ priv pub_key prologue seed. ok 10;
  read_message = λ s m. if s == 10 then (11, ok ([], none)) else (2, ok ([], some keys));
  write_message = λ s p. if s == 0 then (1, ok (0 ∷ [], none)) else (12, ok (11 ∷ [], some keys));
  peer_static = λ s. if s == 11 then client_pub else server_pub;
  local_ephemeral = λ s. [];
  channel_binding = λ s. [];
}

abbrev allowed : Bytes → Option (ℕ × Bool)
allowed k = if same k client_pub then some (5, true) else none

abbrev client : IkHandshake ℕ
client = record (new_ik_handshake_client client_pub [] server_pub) {
  negotiated_capabilities = 1 ∷ [];
}

abbrev server : IkHandshake ℕ
server =
    record (new_ik_handshake_server server_pub [] allowed (record { secret = [] })
      (new_load_monitor 0 0)) {
        negotiated_capabilities = 1 ∷ [];
        authenticated_client_pub_key = client_pub;
      }

run : IkRekey lib client server [] 0 0
unfolding new_ik_handshake_client
run = record {
  i = 0;
  i' = 1;
  i'' = 2;
  r = 10;
  r' = 11;
  r'' = 12;
  m1 = 0 ∷ [];
  m2 = 11 ∷ [];
  keys = keys;
  initiated = refl;
  responded = refl;
  wrote1 = refl;
  read1 = refl;
  wrote2 = refl;
  read2 = refl;
  client_known = refl;
  server_known = refl;
}

rekeys : supports client 1 ≡ true
unfolding supports contains_capability
rekeys = refl

serves : supports server 1 ≡ true
unfolding supports contains_capability
serves = refl

client_set : validate_client_config client ≡ none
unfolding validate_client_config new_ik_handshake_client
client_set = refl

server_set : validate_server_config server ≡ none
unfolding validate_server_config new_ik_handshake_server
server_set = refl

idle : client.pending_rekey ≡ none
unfolding new_ik_handshake_client
idle = refl

listed : lookup server client_pub ≡ some (5, true)
unfolding lookup new_ik_handshake_server same
listed = refl

finish_rekey_v2-start_rekey_v2_example :
    ((start_rekey_v2 lib client [] 0).1 ≡ ok run.m1)
    × (respond_rekey_v2 lib server [] run.m1 0 ≡ ok (run.m2, run.keys.0, run.keys.1))
    × (finish_rekey_v2 lib (start_rekey_v2 lib client [] 0).0 run.m2 ≡ (client, ok run.keys))
finish_rekey_v2-start_rekey_v2_example =
    finish_rekey_v2-start_rekey_v2 lib client server [] 5 0 0 run rekeys serves client_set
      server_set idle listed

answered : respond_rekey_v2 lib server [] run.m1 0 ≡ ok (run.m2, run.keys.0, run.keys.1)
unfolding respond_rekey_v2 respond_known respond run supports contains_capability
    validate_server_config new_ik_handshake_server lookup same extract_session_material
answered = refl

respond_rekey_v2-IsEntitled_example : IsEntitled lib server run.m1
respond_rekey_v2-IsEntitled_example =
    respond_rekey_v2-IsEntitled lib server [] run.m1 0 (run.m2, run.keys.0, run.keys.1) answered
