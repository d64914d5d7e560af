-- ===== src/Established/Delivery.antt =====
-- From the handshake to the data plane: two sides that agree can talk (aead.go and from_handshake.go over
-- the data planes).
use tun_go.Base.{
  ℕ, ◌+◌, ◌^◌, ◌<◌, ◌≤◌, ◌≡◌, refl, subst, true, false, Bytes, length, drop, Result, ok, arith,
}
use tun_go.Aead.{Aead, Laws, key_size}
use tun_go.Nonce.{new_nonce, increment}
use tun_go.Window.{check, find_win, new_sliding_window}
use tun_go.Udp.Session.{new_session_with_ciphers}
use tun_go.Udp.Session.Replay.{new_sessions-Paired}
use tun_go.Udp.Ring.{new_epoch_ring, resolve, find_entry}
use tun_go.Udp.Crypto.{Crypto, new_crypto, encrypt, decrypt, route_id_from_session_id}
use tun_go.Udp.Crypto.Packets.{decrypt-encrypt_peers}
use tun_go.Rekey.StateMachine.{StateMachine, new_state_machine, current_keys}
use tun_go.Noise.Handshake.{IkHandshake}
use tun_go.Noise.Exchange.Agreement.{Agrees}
use tun_go.Established.{
  KeyMaterial, key_material, new_ciphers, new_aeads_from_handshake, udp_from_handshake,
}

module _ {Cipher : Type 0} (a : Aead Cipher) (laws : Laws a) (id : Bytes) (c2s s2c : Cipher)
    (cap : ℕ) (p : Bytes) where
  module _ (long : 20 ≤ length p) (room : length p + 16 ≤ cap)
      (fits : route_id_from_session_id id < 2 ^ 64) where
    abbrev client : Crypto Cipher
    client = new_crypto id c2s s2c false

    abbrev server : Crypto Cipher
    server = new_crypto id s2c c2s true

    -- The first packet of a session, in both directions.
    pub fresh_upstream :
        (pkt : Bytes) × ((encrypt a client cap p).1 ≡ ok pkt)
        × ((decrypt a server pkt).1 ≡ ok (drop 20 p))
    unfolding new_crypto new_epoch_ring resolve find_entry new_session_with_ciphers new_nonce
        increment new_sliding_window check find_win
    fresh_upstream =
        decrypt-encrypt_peers a laws client server cap p
          (new_session_with_ciphers id c2s s2c false 0) (new_session_with_ciphers id s2c c2s true 0)
          {n = record { epoch = 0; counter_low = 1; counter_high = 0 }} long room refl refl refl
          refl (new_sessions-Paired id c2s s2c 0).0 refl fits (omega arith) refl refl

    pub fresh_downstream :
        (pkt : Bytes) × ((encrypt a server cap p).1 ≡ ok pkt)
        × ((decrypt a client pkt).1 ≡ ok (drop 20 p))
    unfolding new_crypto new_epoch_ring resolve find_entry new_session_with_ciphers new_nonce
        increment new_sliding_window check find_win
    fresh_downstream =
        decrypt-encrypt_peers a laws server client cap p
          (new_session_with_ciphers id s2c c2s true 0) (new_session_with_ciphers id c2s s2c false 0)
          {n = record { epoch = 0; counter_low = 1; counter_high = 0 }} long room refl refl refl
          refl (new_sessions-Paired id c2s s2c 0).1 refl fits (omega arith) refl refl

-- Two ends that can talk, both ways, and whose rekey controllers hold the same keys.
pub record IsConnected {Cipher : Type 0} (a : Aead Cipher)
    (left right : Result (Crypto Cipher × StateMachine (Crypto Cipher))) (cap : ℕ) (p : Bytes)
    : Type 0 where
  pub mine : Crypto Cipher
  pub yours : Crypto Cipher
  pub mine_controller : StateMachine (Crypto Cipher)
  pub yours_controller : StateMachine (Crypto Cipher)
  pub left_made : left ≡ ok (mine, mine_controller)
  pub right_made : right ≡ ok (yours, yours_controller)
  pub upstream :
      (pkt : Bytes) × ((encrypt a mine cap p).1 ≡ ok pkt)
      × ((decrypt a yours pkt).1 ≡ ok (drop 20 p))
  pub downstream :
      (pkt : Bytes) × ((encrypt a yours cap p).1 ≡ ok pkt)
      × ((decrypt a mine pkt).1 ≡ ok (drop 20 p))
  pub same_keys : current_keys mine_controller ≡ current_keys yours_controller

module _ {Cipher : Type 0} (a : Aead Cipher) (laws : Laws a) where
  -- The ciphers of the two sides are the same two, crossed.
  new_aeads_lem :
      (h : KeyMaterial)
      → length h.client_to_server ≡ key_size
      → length h.server_to_client ≡ key_size
      → (c2s : Cipher) × (s2c : Cipher) × (new_aeads_from_handshake a h false ≡ ok (c2s, s2c))
        × (new_aeads_from_handshake a h true ≡ ok (s2c, c2s))
  unfolding new_aeads_from_handshake new_ciphers
  new_aeads_lem h e f =
      let (c, made) = laws.new_sized h.client_to_server e in
      let (s, made') = laws.new_sized h.server_to_client f in
      (c, s, ground (arith, e, f, made, made'), ground (arith, e, f, made, made'))

  material_connects :
      (h : KeyMaterial) (cap : ℕ) (p : Bytes)
      → length h.client_to_server ≡ key_size
      → length h.server_to_client ≡ key_size
      → route_id_from_session_id h.id < 2 ^ 64
      → 20 ≤ length p
      → length p + 16 ≤ cap
      → IsConnected a (udp_from_handshake a h false).1 (udp_from_handshake a h true).1 cap p
  unfolding udp_from_handshake
  material_connects h cap p e f fits long room =
      let (c2s, s2c, clients, servers) = new_aeads_lem h e f in
      record {
        mine = new_crypto h.id c2s s2c false;
        yours = new_crypto h.id s2c c2s true;
        mine_controller =
            new_state_machine (new_crypto h.id c2s s2c false) h.client_to_server h.server_to_client;
        yours_controller =
            new_state_machine (new_crypto h.id s2c c2s true) h.client_to_server h.server_to_client;
        left_made = rw (clients, udp_from_handshake) refl;
        right_made = rw (servers, udp_from_handshake) refl;
        upstream = fresh_upstream a laws h.id c2s s2c cap p long room fits;
        downstream = fresh_downstream a laws h.id c2s s2c cap p long room fits;
        same_keys = unfold new_state_machine current_keys in refl;
      }

  -- If the two sides of a handshake agree, with keys of 32 bytes and a route id of 64 bits, then
  -- NewFromHandshake of the UDP data plane succeeds on both sides, what either encrypts first in a
  -- buffer with headroom and spare capacity decrypts at the other to the payload, and both rekey
  -- controllers hold the same keys.
  pub agreed-IsConnected :
      {HS : Type 0} (client server : IkHandshake HS) (client_pub : Bytes) (cap : ℕ) (p : Bytes)
      → Agrees client server client_pub
      → length client.client_key ≡ key_size
      → length client.server_key ≡ key_size
      → route_id_from_session_id client.id < 2 ^ 64
      → 20 ≤ length p
      → length p + 16 ≤ cap
      → IsConnected a
          (udp_from_handshake a (key_material client) false).1
          (udp_from_handshake a (key_material server) true).1
          cap
          p
  unfolding key_material
  agreed-IsConnected client server client_pub cap p agreed e f fits long room =
      subst
        (λ h.
          IsConnected a (udp_from_handshake a (key_material client) false).1
            (udp_from_handshake a h true).1 cap p)
        same_material (material_connects (key_material client) cap p e f fits long room)
    where
      same_material : key_material client ≡ key_material server
      same_material = cc (agreed.same_id, agreed.same_client_key, agreed.same_server_key)
