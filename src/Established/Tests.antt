-- ===== src/Established/Tests.antt =====
-- Two sides with one session id and one pair of keys, and the toy cipher.
use tun_go.Base.{ℕ, ◌^◌, ◌<◌, refl, [], ◌∷◌, ◌++◌, true, false, Bytes, replicate, be, arith}
use tun_go.Aead.Toy.{toy, toy-Laws}
use tun_go.Udp.Crypto.{route_id_from_session_id}
use tun_go.Noise.Handshake.{IkHandshake, new_ik_handshake_client, contains_capability, supports}
use tun_go.Noise.Exchange.Agreement.{Agrees}
use tun_go.Established.{key_material, udp_from_handshake}
use tun_go.Established.Delivery.{IsConnected, agreed-IsConnected}

abbrev client_pub : Bytes
client_pub = replicate 32 1

abbrev client : IkHandshake ℕ
client = record (new_ik_handshake_client client_pub [] (replicate 32 2)) {
  id = replicate 32 7;
  client_key = replicate 32 3;
  server_key = replicate 32 4;
  negotiated_capabilities = 1 ∷ [];
}

abbrev server : IkHandshake ℕ
server = record client { authenticated_client_pub_key = client_pub }

agreed : Agrees client server client_pub
unfolding supports contains_capability
agreed = record {
  same_id = refl;
  same_client_key = refl;
  same_server_key = refl;
  authenticated = refl;
  client_rekeys = refl;
  server_rekeys = refl;
}

-- Twenty bytes of headroom and a payload.
abbrev buffer : Bytes
buffer = replicate 20 0 ++ (10 ∷ 20 ∷ [])

fits : route_id_from_session_id client.id < 2 ^ 64
unfolding route_id_from_session_id be
fits = omega arith

agreed-IsConnected_example :
    IsConnected toy
      (udp_from_handshake toy (key_material client) false).1
      (udp_from_handshake toy (key_material server) true).1
      38
      buffer
agreed-IsConnected_example =
    agreed-IsConnected toy toy-Laws client server client_pub 38 buffer agreed refl refl fits
      (omega arith) (omega arith)
