-- ===== src/Noise/Rekey/Agreement.antt =====
-- Who is answered in a V2 rekey, and that both sides come out with one pair of keys (rekey_v2.go).
use tun_go.Base.{
  ℕ, ◌≡◌, ◌∙◌, refl, sym, ap, [], true, Option, none, some, Bytes, Result, ok, err, arith,
  Option-cases, Bool-cases, inl, inr,
}
use tun_go.Ip.{same}
use tun_go.Ip.Addresses.{same_self}
use tun_go.Ip.Prefix.{same_iff}
use tun_go.Noise.Handshake.{
  NoiseLib, IkHandshake, bytes_of, capability_rekey_v2, supports, extract_session_material,
  validate_server_config, validate_client_config, lookup,
}
use tun_go.Noise.Rekey.{
  begin_rekey, start_rekey_v2, finish_read, finish_rekey_v2, respond, respond_known,
  respond_rekey_v2,
}

-- What a responder knows of the client that it answers.
pub record IsEntitled {HS : Type 0} (lib : NoiseLib HS) (h : IkHandshake HS) (msg1 : Bytes)
    : Type 0 where
  pub state : HS
  pub read : HS
  pub id : ℕ
  pub payload : Bytes × Option (Bytes × Bytes)
  pub negotiated : supports h capability_rekey_v2 ≡ true
  pub was_read : lib.read_message state msg1 ≡ (read, ok payload)
  pub same_client : lib.peer_static read ≡ h.authenticated_client_pub_key
  pub enabled : lookup h h.authenticated_client_pub_key ≡ some (id, true)

module _ {HS : Type 0} (lib : NoiseLib HS) (h : IkHandshake HS) (prologue msg1 : Bytes)
    (seed : ℕ) where
  known :
      (hs : HS) (r : Bytes × Bytes × Bytes)
      → respond_known lib h hs ≡ ok r
      → (id : ℕ) × (lib.peer_static hs ≡ h.authenticated_client_pub_key)
        × (lookup h h.authenticated_client_pub_key ≡ some (id, true))
  unfolding respond_known
  known hs r e = elim (Bool-cases (same (lib.peer_static hs) h.authenticated_client_pub_key)) [
    | inr n ↦ absurd (ground (arith, n))
    | inl y ↦
        (let own = (same_iff (lib.peer_static hs) h.authenticated_client_pub_key).0 y in
          elim (Option-cases (lookup h (lib.peer_static hs))) [
            | inl n ↦ absurd (ground (arith, y, n))
            | inr ((id, on), found) ↦
                (id, own, ap (lookup h) (sym own) ∙ found ∙ ground (arith, y, found))
          ])
  ]

  -- RespondRekeyV2 answers only if Rekey V2 was negotiated, the message was read under a state of
  -- the library, the client that it comes from is the one that the session authenticated, and that
  -- client is still among the allowed peers and enabled.
  pub respond_rekey_v2-IsEntitled :
      (r : Bytes × Bytes × Bytes)
      → respond_rekey_v2 lib h prologue msg1 seed ≡ ok r
      → IsEntitled lib h msg1
  unfolding respond_rekey_v2
  respond_rekey_v2-IsEntitled r e = elim (Bool-cases (supports h capability_rekey_v2)) [
    | inr n ↦ absurd (ground (arith, n))
    | inl y ↦ elim (Option-cases (validate_server_config h)) [
      | inr (x, v) ↦ absurd (ground (arith, y, v))
      | inl v ↦
          made y v
            (lib.new_responder (bytes_of h.server_priv_key) (bytes_of h.server_pub_key) prologue
              seed)
            refl
    ]
  ]
    where
      was_read :
          (hs : HS)
          → supports h capability_rekey_v2 ≡ true
          → validate_server_config h ≡ none
          → lib.new_responder (bytes_of h.server_priv_key) (bytes_of h.server_pub_key) prologue seed
            ≡ ok hs
          → (m : Result (Bytes × Option (Bytes × Bytes))) → (lib.read_message hs msg1).1 ≡ m
          → IsEntitled lib h msg1
      was_read hs y v n (err x) m = absurd (ground (arith, y, v, n, m))
      was_read hs y v n (ok payload) m =
          let (id, own, found) =
            known (lib.read_message hs msg1).0 r (ground (arith, y, v, n, m)) in
          record {
            state = hs;
            read = (lib.read_message hs msg1).0;
            id = id;
            payload = payload;
            negotiated = y;
            was_read = ap (λ t. ((lib.read_message hs msg1).0, t)) m;
            same_client = own;
            enabled = found;
          }

      made :
          supports h capability_rekey_v2 ≡ true
          → validate_server_config h ≡ none
          → (s : Result HS)
          → lib.new_responder (bytes_of h.server_priv_key) (bytes_of h.server_pub_key) prologue seed
            ≡ s
          → IsEntitled lib h msg1
      made y v (err x) n = absurd (ground (arith, y, v, n))
      made y v (ok hs) n = was_read hs y v n (lib.read_message hs msg1).1 refl

-- What the Noise library does for the two ends of a rekey under one prologue.
pub record IkRekey {HS : Type 0} (lib : NoiseLib HS) (client server : IkHandshake HS)
    (prologue : Bytes) (a b : ℕ) : Type 0 where
  pub i : HS
  pub i' : HS
  pub i'' : HS
  pub r : HS
  pub r' : HS
  pub r'' : HS
  pub m1 : Bytes
  pub m2 : Bytes
  pub keys : Bytes × Bytes
  pub initiated :
      lib.new_initiator
        (bytes_of client.client_priv_key)
        (bytes_of client.client_pub_key)
        (bytes_of client.peer_pub_key)
        prologue
        a
      ≡ ok i
  pub responded :
      lib.new_responder
        (bytes_of server.server_priv_key)
        (bytes_of server.server_pub_key)
        prologue
        b
      ≡ ok r
  pub wrote1 : lib.write_message i [] ≡ (i', ok (m1, none))
  pub read1 : lib.read_message r m1 ≡ (r', ok ([], none))
  pub wrote2 : lib.write_message r' [] ≡ (r'', ok (m2, some keys))
  pub read2 : lib.read_message i' m2 ≡ (i'', ok ([], some keys))
  pub client_known : lib.peer_static r' ≡ server.authenticated_client_pub_key
  pub server_known : lib.peer_static i'' ≡ bytes_of client.peer_pub_key

module _ {HS : Type 0} (lib : NoiseLib HS) (client server : IkHandshake HS) (prologue : Bytes)
    (id a b : ℕ) where
  -- If the Noise library runs a handshake under the prologue between two ends that negotiated Rekey
  -- V2 and are configured, no rekey is pending, and the client is enabled, then the response to
  -- what StartRekeyV2 sends brings FinishRekeyV2 to the keys that RespondRekeyV2 returned, and
  -- leaves the client as it was before.
  pub finish_rekey_v2-start_rekey_v2 :
      (run : IkRekey lib client server prologue a b)
      → supports client capability_rekey_v2 ≡ true
      → supports server capability_rekey_v2 ≡ true
      → validate_client_config client ≡ none
      → validate_server_config server ≡ none
      → client.pending_rekey ≡ none
      → lookup server server.authenticated_client_pub_key ≡ some (id, true)
      → ((start_rekey_v2 lib client prologue a).1 ≡ ok run.m1)
        × (respond_rekey_v2 lib server prologue run.m1 b ≡ ok (run.m2, run.keys.0, run.keys.1))
        × (finish_rekey_v2 lib (start_rekey_v2 lib client prologue a).0 run.m2
            ≡ (client, ok run.keys))
  unfolding start_rekey_v2 begin_rekey respond_rekey_v2 respond_known respond finish_rekey_v2
      finish_read extract_session_material
  finish_rekey_v2-start_rekey_v2 run one two configured served idle listed = (
    ground (arith, one, configured, idle, run.initiated, run.wrote1),
    ground (
      arith,
      two,
      served,
      run.responded,
      run.read1,
      run.client_known,
      listed,
      run.wrote2,
      same_self server.authenticated_client_pub_key,
    ),
    ground (
      arith,
      one,
      configured,
      idle,
      run.initiated,
      run.wrote1,
      run.read2,
      run.server_known,
      same_self (bytes_of client.peer_pub_key),
    ),
  )
