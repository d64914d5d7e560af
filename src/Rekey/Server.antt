-- ===== src/Rekey/Server.antt =====
-- src/internal/protocol/rekey/rekey.go (with wire_v1.go): the server's side of a rekey exchange. The
-- controller is the state machine of Rekey.StateMachine. SHA-256, X25519, the key deriver and the V2
-- handshake are parameters over a state `X`. The mutex makes `Handle` one step; the receiver and its
-- controller are not nil, and copies that are zeroized afterwards are not kept.
pub mod Begin
pub mod Transactions
pub mod Repeats
mod Tests
use tun_go.Base.{
  ℕ, ◌+◌, List, [], ◌∷◌, ◌++◌, Bool, true, false, ◌&&◌, ◌||◌, not, Option, none, some, leb, ◌==◌,
  if◌then◌else◌, Bytes, length, take, drop, replicate, copy_at, Result, Error, ok, err,
  bad_key_size,
}
use tun_go.ServicePacket
use tun_go.ServicePacket.{parse, rekey_init, rekey_ack, rekey_init_v2, rekey_ack_v2}
use tun_go.Rekey.StateMachine
use tun_go.Rekey.StateMachine.{
  EpochManager, StateMachine, current_keys, ready_for_rekey, start_rekey,
}

abbrev pub service_header_len : ℕ
service_header_len = 3

abbrev pub v1_public_key_len : ℕ
v1_public_key_len = 32

abbrev pub v1_packet_len : ℕ
v1_packet_len = service_header_len + v1_public_key_len

-- "tungo-rekey-c2s" and "tungo-rekey-s2c"
abbrev pub derive_label_c2s : Bytes
derive_label_c2s =
    b't' ∷ b'u' ∷ b'n' ∷ b'g' ∷ b'o' ∷ b'-' ∷ b'r' ∷ b'e' ∷ b'k' ∷ b'e' ∷ b'y' ∷ b'-' ∷ b'c' ∷ b'2'
    ∷ b's' ∷ []

abbrev pub derive_label_s2c : Bytes
derive_label_s2c =
    b't' ∷ b'u' ∷ b'n' ∷ b'g' ∷ b'o' ∷ b'-' ∷ b'r' ∷ b'e' ∷ b'k' ∷ b'e' ∷ b'y' ∷ b'-' ∷ b's' ∷ b'2'
    ∷ b'c' ∷ []

-- "tungo-rekey-v2"
abbrev pub v2_label : Bytes
v2_label =
    b't' ∷ b'u' ∷ b'n' ∷ b'g' ∷ b'o' ∷ b'-' ∷ b'r' ∷ b'e' ∷ b'k' ∷ b'e' ∷ b'y' ∷ b'-' ∷ b'v' ∷ b'2'
    ∷ []

-- What the coordinator calls.
pub record Primitives (X : Type 0) : Type 0 where
  pub sum256 : Bytes → Bytes
  pub x25519 : Bytes → Bytes → Result Bytes
  pub generate_key_pair : X → X × Result (Bytes × Bytes)  -- public, private
  pub derive_key : Bytes → Bytes → Bytes → Result Bytes
  pub respond_rekey_v2 : X → Bytes → Bytes → X × Result (Bytes × Bytes × Bytes)

pub record ServerRekeyTransaction : Type 0 where
  pub request_hash : Bytes  -- [32]byte
  pub response : Bytes
  pub carrier_epoch : ℕ  -- uint16
  pub epoch : ℕ  -- uint16
  pub send_activated : Bool
  pub peer_observed : Bool

unfoldable pub complete : ServerRekeyTransaction → Bool
complete t = t.send_activated && t.peer_observed

pub record ServerRekeyCoordinator (M X : Type 0) : Type 0 where
  pub controller : StateMachine M
  pub has_v2 : Bool  -- `c.v2 != nil`
  pub current : Option ServerRekeyTransaction
  pub world : X

-- `(response, epoch, ok, err)`
pub data Reply : Type 0 where
  no_reply : Reply
  reply : Bytes → ℕ → Reply
  failed : Error → Reply

-- Comparison of two hashes.
unfoldable pub same_bytes : Bytes → Bytes → Bool
same_bytes [] [] = true
same_bytes [] (b ∷ rest_b) = false
same_bytes (a ∷ rest_a) [] = false
same_bytes (a ∷ rest_a) (b ∷ rest_b) = a == b && same_bytes rest_a rest_b

-- The header type of a request that this coordinator handles; `has_crypto` is `crypto != nil`.
unfoldable pub request_kind : Bool → Bool → Bytes → Option ℕ
request_kind has_v2 has_crypto plaindata = elim (parse plaindata) [
  | none ↦ none
  | some kind ↦
      if not (kind == rekey_init) && not (kind == rekey_init_v2)
      then none
      else if kind == rekey_init
          && (has_v2 || (not has_crypto || not (length plaindata == v1_packet_len)))
      then none
      else if kind == rekey_init_v2 && (not has_v2 || leb (length plaindata) service_header_len)
      then none
      else some kind
]

module _ {M X : Type 0} (manager : EpochManager M) (prim : Primitives X) where
  -- The keys that follow from a shared secret: body, c2s, s2c.
  unfoldable pub derive_keys : StateMachine M → Bytes → Bytes → Result (Bytes × Bytes × Bytes)
  derive_keys controller public_key shared =
      elim (prim.derive_key shared (current_keys controller).0 derive_label_c2s) [
        | err e ↦ err e
        | ok c2s ↦ elim (prim.derive_key shared (current_keys controller).1 derive_label_s2c) [
          | err e ↦ err e
          | ok s2c ↦
              if not (length public_key == v1_public_key_len)
              then err bad_key_size
              else ok (public_key, c2s, s2c)
        ]
      ]

  unfoldable pub rekey_v1 : ServerRekeyCoordinator M X → Bytes → X × Result (Bytes × Bytes × Bytes)
  rekey_v1 c plaindata =
      let (x, generated) = prim.generate_key_pair c.world in
      elim generated [
        | err e ↦ (x, err e)
        | ok pair ↦
            elim (prim.x25519 pair.1 (take v1_public_key_len (drop service_header_len plaindata))) [
              | err e ↦ (x, err e)
              | ok shared ↦ (x, derive_keys c.controller pair.0 shared)
            ]
      ]

  unfoldable pub rekey_v2_prologue : StateMachine M → Bytes
  rekey_v2_prologue controller =
      prim.sum256 (v2_label ++ ((current_keys controller).0 ++ (current_keys controller).1))

  unfoldable pub make_keys :
      ServerRekeyCoordinator M X → ℕ → Bytes → X × Result (Bytes × Bytes × Bytes)
  make_keys c kind plaindata =
      if kind == rekey_init
      then rekey_v1 c plaindata
      else prim.respond_rekey_v2 c.world (rekey_v2_prologue c.controller)
          (drop service_header_len plaindata)

  unfoldable pub response_type : ℕ → ℕ
  response_type kind = if kind == rekey_init then rekey_ack else rekey_ack_v2

  -- From the staged epoch on: the response, and the transaction that keeps it.
  unfoldable pub answer :
      ServerRekeyCoordinator M X → ℕ → Bytes → ℕ → Bytes → ℕ → ServerRekeyCoordinator M X × Reply
  answer c carrier_epoch request_hash kind body epoch =
      elim (ServicePacket.encode (response_type kind)
        (replicate (service_header_len + length body) 0)) [
          | err e ↦ (c, failed e)
          | ok header ↦
              let response = copy_at service_header_len body header in
              (
                record c {
                  current = some record {
                    request_hash = request_hash;
                    response = response;
                    carrier_epoch = carrier_epoch;
                    epoch = epoch;
                    send_activated = false;
                    peer_observed = false;
                  };
                },
                reply response epoch,
              )
        ]

  unfoldable pub stage :
      ServerRekeyCoordinator M X
      → ℕ
      → Bytes
      → ℕ
      → Bytes
      → Bytes
      → Bytes
      → ServerRekeyCoordinator M X × Reply
  stage c carrier_epoch request_hash kind body c2s s2c =
      let (controller, started) = start_rekey manager c.controller c2s s2c in
      let c' = record c { controller = controller } in
      elim started [
        | err e ↦ (c', failed e)
        | ok epoch ↦ answer c' carrier_epoch request_hash kind body epoch
      ]

  -- A request that is no repetition.
  unfoldable pub begin :
      ServerRekeyCoordinator M X → ℕ → ℕ → Bytes → ServerRekeyCoordinator M X × Reply
  begin c carrier_epoch kind plaindata =
      if not (ready_for_rekey c.controller)
      then (c, no_reply)
      else (let (x, made) = make_keys c kind plaindata in
          let c' = record c { world = x } in
          elim made [
            | err e ↦ (c', failed e)
            | ok keys ↦ stage c' carrier_epoch (prim.sum256 plaindata) kind keys.0 keys.1 keys.2
          ])

  unfoldable pub handle :
      ServerRekeyCoordinator M X → ℕ → Bool → Bytes → ServerRekeyCoordinator M X × Reply
  handle c carrier_epoch has_crypto plaindata = elim (request_kind c.has_v2 has_crypto plaindata) [
    | none ↦ (c, no_reply)
    | some kind ↦ elim c.current [
      | none ↦ begin c carrier_epoch kind plaindata
      | some t ↦
          if same_bytes t.request_hash (prim.sum256 plaindata)
          then (if complete t || not (t.carrier_epoch == carrier_epoch)
              then (c, no_reply)
              else (c, reply t.response t.epoch))
          else if not (complete t) || not (carrier_epoch == t.epoch)
          then (c, no_reply)
          else begin c carrier_epoch kind plaindata
    ]
  ]

  unfoldable pub mark_activated : ℕ → Option ServerRekeyTransaction → Option ServerRekeyTransaction
  mark_activated epoch none = none
  mark_activated epoch (some t) =
      if t.epoch == epoch then some (record t { send_activated = true }) else some t

  unfoldable pub mark_observed : ℕ → Option ServerRekeyTransaction → Option ServerRekeyTransaction
  mark_observed epoch none = none
  mark_observed epoch (some t) =
      if t.epoch == epoch then some (record t { peer_observed = true }) else some t

  unfoldable pub activate_send_epoch : ServerRekeyCoordinator M X → ℕ → ServerRekeyCoordinator M X
  activate_send_epoch c epoch = record c {
    controller = StateMachine.activate_send_epoch manager c.controller epoch;
    current = mark_activated epoch c.current;
  }

  unfoldable pub observe_peer_epoch : ServerRekeyCoordinator M X → ℕ → ServerRekeyCoordinator M X
  observe_peer_epoch c epoch = record c {
    controller = StateMachine.observe_peer_epoch manager c.controller epoch;
    current = mark_observed epoch c.current;
  }
