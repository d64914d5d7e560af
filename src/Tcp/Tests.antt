-- ===== src/Tcp/Tests.antt =====
-- Two TCP peers with the toy cipher: runs, and the theorems at their sessions.
use tun_go.Base.{
  ℕ, ◌+◌, ◌*◌, ◌^◌, ◌-◌, ◌≤◌, ◌≡◌, refl, List, [], ◌∷◌, true, false, some, Bytes, replicate,
  get_elem?, set, put_be, be, map, ok, err, open_failed, arith,
}
use tun_go.Aead.Toy.{toy, toy-Laws}
use tun_go.Core.{aad_buf, create_aad}
use tun_go.Nonce.{Nonce, IsNonce, new_nonce, increment, peek_encode}
use tun_go.Tcp.Session
use tun_go.Tcp.Session.{Session, new_session_with_ciphers, open_with, commit_nonce}
use tun_go.Tcp.Session.Step.{Paired, tcp_sessions-Paired}
use tun_go.Tcp.Session.Stream.{transmit, stream_delivered}
use tun_go.Tcp.Crypto.{
  Crypto, new_crypto, encrypt, decrypt, stage_epoch, receive_session_for_epoch, session_for,
}
use tun_go.Tcp.Crypto.Frames.{tcp_frame_delivered}
use tun_go.Tcp.Crypto.Lifecycle.{Idle, tcp_manager, tcp_lawful, session_at}
use tun_go.Rekey.StateMachine.{
  StateMachine, phase_idle, new_state_machine, start_rekey, activate_send_epoch, observe_peer_epoch,
}
use tun_go.Rekey.StateMachine.Phases.{new_state_machine-IsClean}
use tun_go.Rekey.Manager.{Agrees, transition_completes}

abbrev id : Bytes
id = replicate 32 7

abbrev client_session : Session ℕ
client_session = new_session_with_ciphers id 1 2 false 0

abbrev server_session : Session ℕ
server_session = new_session_with_ciphers id 2 1 true 0

abbrev client : Crypto ℕ
client = new_crypto id 1 2 false

abbrev server : Crypto ℕ
server = new_crypto id 2 1 true

abbrev first : Nonce
first = record { epoch = 0; counter_low = 1; counter_high = 0 }

abbrev message : Bytes
message = 10 ∷ 20 ∷ []

increment-first : increment client_session.send_nonce ≡ ok first
unfolding new_session_with_ciphers new_nonce increment
increment-first = refl

fresh-IsNonce : IsNonce client_session.send_nonce
unfolding new_session_with_ciphers new_nonce
fresh-IsNonce = omega arith

abbrev garbage : Bytes
garbage = replicate 20 9

garbage_fails : (Session.decrypt toy server_session garbage).1 ≡ err open_failed
unfolding Session.decrypt open_with new_session_with_ciphers new_nonce peek_encode put_be be
    create_aad aad_buf
garbage_fails = refl

abbrev messages : List Bytes
messages = message ∷ (garbage ∷ [])

starts : client_session.send_nonce ≡ new_nonce 0
unfolding new_session_with_ciphers
starts = refl

lasts :
    client_session.send_nonce.counter_high * 2 ^ 64 + client_session.send_nonce.counter_low + 2
    ≤ 2 ^ 80 - 1
unfolding new_session_with_ciphers new_nonce
lasts = omega arith

paired : Paired client_session server_session × Paired server_session client_session
paired = tcp_sessions-Paired id 1 2 0

stream_delivered_example : transmit toy client_session server_session messages ≡ map ok messages
stream_delivered_example =
    stream_delivered toy toy-Laws client_session server_session messages paired.0 fresh-IsNonce
      lasts

client_sends : client.send ≡ session_at 0 0
unfolding new_crypto
client_sends = refl

server_receives : receive_session_for_epoch server client.send.epoch ≡ some 0
unfolding new_crypto receive_session_for_epoch session_for
server_receives = refl

client_holds : get_elem? client.sessions 0 ≡ some client_session
unfolding new_crypto
client_holds = refl

server_holds : get_elem? server.sessions 0 ≡ some server_session
unfolding new_crypto
server_holds = refl

-- Two bytes of headroom and a message.
abbrev buffer : Bytes
buffer = 0 ∷ (0 ∷ message)

tcp_frame_delivered_example :
    (frame : Bytes) × (s' : Session ℕ) × (t' : Session ℕ) × (encrypt toy client 20 buffer
      ≡ (record client { sessions = set client.sessions 0 s' }, ok frame))
    × (decrypt toy server frame
        ≡ (record server { sessions = set server.sessions 0 t' }, ok message))
    × Paired s' t'
tcp_frame_delivered_example =
    tcp_frame_delivered toy toy-Laws client server 20 0 0 buffer (omega arith) (omega arith)
      (unfold new_crypto in refl) (unfold new_crypto in omega arith) server_receives client_holds
      server_holds paired.0 increment-first

client-Idle : Idle client 0
unfolding new_crypto
client-Idle = record { pointer = 0; newest = refl; alone = refl; sends = refl; counted = refl }

abbrev key : Bytes
key = replicate 32 5

abbrev machine : StateMachine (Crypto ℕ)
machine = new_state_machine client key key

machine-Agrees : Agrees (tcp_manager toy) (tcp_lawful toy) machine
unfolding new_state_machine tcp_lawful
machine-Agrees = record { clean = new_state_machine-IsClean client key key; agrees = client-Idle }

machine_idle : machine.phase ≡ phase_idle
unfolding new_state_machine
machine_idle = refl

machine_stages : (stage_epoch toy machine.epoch_manager key key).1 ≡ ok 1
unfolding new_state_machine new_crypto stage_epoch
machine_stages = refl

transition_completes_example :
    (c' : StateMachine (Crypto ℕ)) × (observe_peer_epoch
        (tcp_manager toy)
        (activate_send_epoch (tcp_manager toy) (start_rekey (tcp_manager toy) machine key key).0 1)
        1
      ≡ c')
    × (◌≡◌ {A = ℕ} 1 (machine.current.epoch + 1))
    × (c'.phase ≡ phase_idle)
    × (c'.current ≡ record { c2s = key; s2c = key; epoch = 1 })
    × Agrees (tcp_manager toy) (tcp_lawful toy) c'
transition_completes_example =
    transition_completes (tcp_manager toy) (tcp_lawful toy) machine key key 1 1 machine-Agrees
      machine_idle refl refl machine_stages (omega arith)
