-- ===== src/Udp/Tests.antt =====
-- Two peers with the toy cipher: runs, and the theorems at their sessions.
use tun_go.Base.{
  ℕ, ◌≡◌, refl, [], ◌∷◌, ◌++◌, true, false, Bytes, replicate, put_be, be, some, ok, err,
  non_unique_nonce, rekey_refused, arith,
}
use tun_go.Aead.Toy.{toy, toy-Laws}
use tun_go.Nonce.{Nonce, IsNonce, new_nonce, increment}
use tun_go.Window.{check, find_win, new_sliding_window}
use tun_go.Window.Run.{new-Tracks}
use tun_go.Window.Table.{Tracks}
use tun_go.Udp.Session
use tun_go.Udp.Session.{Session, new_session_with_ciphers, seal_with, open_with}
use tun_go.Udp.Session.Open.{Paired}
use tun_go.Udp.Session.Replay.{new_sessions-Paired, Decides, decrypt-Decides, decrypt_again}
use tun_go.Udp.Ring.{new_epoch_ring, resolve, find_entry, insert, oldest, len}
use tun_go.Udp.Crypto.{
  Crypto, new_crypto, encrypt, decrypt, stage_epoch, would_evict_send, route_id_from_session_id,
}
use tun_go.Udp.Crypto.Epochs.{Inv, new_crypto-Inv, Stages, stage_epoch-Stages}
use tun_go.Udp.Crypto.Packets.{decrypt-encrypt_peers}
use tun_go.Udp.Crypto.Routing.{IsRouted, decrypt-IsRouted}

abbrev id : Bytes
id = replicate 32 7

abbrev client_session : Session ℕ
client_session = new_session_with_ciphers id 1 2 false 0

abbrev server_session : Session ℕ
server_session = new_session_with_ciphers id 2 1 true 0

abbrev client : Crypto ℕ
client = new_crypto id 1 2 false

abbrev server : Crypto ℕ
server = new_crypto id 2 1 true

abbrev first : Nonce
first = record { epoch = 0; counter_low = 1; counter_high = 0 }

-- 12 bytes of headroom and a payload.
abbrev segment : Bytes
segment = replicate 12 0 ++ (10 ∷ 20 ∷ [])

abbrev buffer : Bytes
buffer = replicate 8 0 ++ segment

sessions-Paired : Paired client_session server_session × Paired server_session client_session
sessions-Paired = new_sessions-Paired id 1 2 0

starts : client_session.nonce ≡ new_nonce 0
unfolding new_session_with_ciphers
starts = refl

increment-first : increment client_session.nonce ≡ ok first
unfolding new_session_with_ciphers new_nonce increment
increment-first = refl

first_admitted : check server_session.nonce_validator 1 0 ≡ ok tt
unfolding new_session_with_ciphers new_sliding_window check find_win
first_admitted = refl

fresh-IsNonce : IsNonce client_session.nonce
unfolding new_session_with_ciphers new_nonce
fresh-IsNonce = omega arith

abbrev garbage : Bytes
garbage = replicate 40 0

decrypt-Decides_example :
    Decides toy server_session garbage (Session.decrypt toy server_session garbage)
decrypt-Decides_example = decrypt-Decides toy server_session garbage

-- Nonce 1, then a payload under the tag of key 1.
abbrev wire : Bytes
wire = put_be 8 1 ++ (put_be 2 0 ++ (put_be 2 0 ++ (replicate 16 1 ++ (10 ∷ 20 ∷ []))))

wire_opens : (Session.decrypt toy server_session wire).1 ≡ ok (10 ∷ 20 ∷ [])
unfolding Session.decrypt open_with new_session_with_ciphers new_sliding_window check find_win
    put_be be
wire_opens = refl

server-Tracks : Tracks server_session.nonce_validator.wins []
unfolding new_session_with_ciphers
server-Tracks = new-Tracks

decrypt_again_example :
    Session.decrypt toy (Session.decrypt toy server_session wire).0 wire
    ≡ ((Session.decrypt toy server_session wire).0, err non_unique_nonce)
unfolding new_session_with_ciphers new_sliding_window
decrypt_again_example =
    decrypt_again toy server_session wire [] server-Tracks (λ e. omega arith) wire_opens

client_holds : resolve client.ring 0 ≡ some (some client_session)
unfolding new_crypto new_epoch_ring resolve find_entry
client_holds = refl

server_holds : resolve server.ring 0 ≡ some (some server_session)
unfolding new_crypto new_epoch_ring resolve find_entry
server_holds = refl

decrypt-encrypt_peers_example :
    (pkt : Bytes) × ((encrypt toy client 38 buffer).1 ≡ ok pkt)
    × ((decrypt toy server pkt).1 ≡ ok (10 ∷ 20 ∷ []))
unfolding new_crypto new_session_with_ciphers route_id_from_session_id new_nonce be
decrypt-encrypt_peers_example =
    decrypt-encrypt_peers toy toy-Laws client server 38 buffer client_session server_session
      {n = first} (omega arith) (omega arith) client_holds server_holds refl refl sessions-Paired.0
      refl (omega arith) fresh-IsNonce increment-first first_admitted

client-Inv : Inv client
client-Inv = new_crypto-Inv id 1 2 false

abbrev key : Bytes
key = replicate 32 5

new_crypto-Inv_example : Inv client
new_crypto-Inv_example = new_crypto-Inv id 1 2 false

stage_epoch-Stages_example : Stages toy client (stage_epoch toy client key key)
stage_epoch-Stages_example = stage_epoch-Stages toy client key key client-Inv

decrypt-IsRouted_example :
    IsRouted toy server garbage (decrypt toy server garbage) × Inv (decrypt toy server garbage).0
decrypt-IsRouted_example = decrypt-IsRouted toy server garbage (new_crypto-Inv id 2 1 true)

abbrev staged : Crypto ℕ → Crypto ℕ
staged c = (stage_epoch toy c key key).0

-- Three more epochs fit the ring; a fourth would drop the send epoch's session.
fifth_refused : (stage_epoch toy (staged (staged (staged client))) key key).1 ≡ err rekey_refused
unfolding stage_epoch new_crypto new_epoch_ring insert would_evict_send oldest len
fifth_refused = refl
