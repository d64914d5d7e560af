-- ===== src/Noise/Handshake.antt =====
-- src/internal/protocol/noise/ik_handshake.go and capabilities.go: the Noise IK handshake of both
-- sides. The Noise library (flynn/noise) and the transport are parameters. Each handshake state gets
-- the seed of its ephemeral key; a state whose ephemeral key is zeroed is not used again. The load
-- monitor, which the server's handshakes share, comes in and goes out as a field.
use tun_go.Base.{
  ℕ, List, [], ◌∷◌, Bool, true, false, Option, none, some, ◌==◌, if◌then◌else◌, Bytes, take, Result,
  Error, missing_client_key, missing_server_key, missing_allowed_peers,
}
use tun_go.Ip.{Addr}
use tun_go.Noise.Cookie.{CookieManager}
use tun_go.Noise.LoadMonitor.{LoadMonitor, record_handshake, under_load}

abbrev pub capability_rekey_v2 : ℕ
capability_rekey_v2 = 1

-- A message's payload, and the keys of the two cipher states once the handshake is complete.
pub record NoiseLib (HS : Type 0) : Type 0 where
  pub new_initiator : Bytes → Bytes → Bytes → Bytes → ℕ → Result HS
  pub new_responder : Bytes → Bytes → Bytes → ℕ → Result HS
  pub read_message : HS → Bytes → HS × Result (Bytes × Option (Bytes × Bytes))
  pub write_message : HS → Bytes → HS × Result (Bytes × Option (Bytes × Bytes))
  pub peer_static : HS → Bytes
  pub local_ephemeral : HS → Bytes
  pub channel_binding : HS → Bytes

-- `read` takes at most so many bytes; `remote_addr` is `none` where the transport knows no address.
pub record Transport (T : Type 0) : Type 0 where
  pub read : T → ℕ → T × Result Bytes
  pub write : T → Bytes → T × Result ℕ
  pub remote_addr : T → Option Addr

pub record SessionMaterial : Type 0 where
  pub id : Bytes
  pub client_key : Bytes
  pub server_key : Bytes

pub record ServerHandshakeOutcome : Type 0 where
  pub client_id : ℕ
  pub client_pub_key : Bytes
  pub negotiated_capabilities : List ℕ
  pub material : SessionMaterial

-- A key or a collaborator that is nil is `none`.
pub record IkHandshake (HS : Type 0) : Type 0 where
  pub id : Bytes
  pub client_key : Bytes
  pub server_key : Bytes
  pub negotiated_capabilities : List ℕ
  pub server_pub_key : Option Bytes
  pub server_priv_key : Option Bytes
  pub allowed_peers : Option (Bytes → Option (ℕ × Bool))
  pub cookie_manager : Option CookieManager
  pub load_monitor : Option LoadMonitor
  pub client_pub_key : Option Bytes
  pub client_priv_key : Option Bytes
  pub peer_pub_key : Option Bytes
  pub authenticated_client_pub_key : Bytes
  pub cookie : Bytes
  pub pending_rekey : Option HS

abbrev pub bytes_of : Option Bytes → Bytes
bytes_of none = []
bytes_of (some b) = b

-- `slices.Contains`
unfoldable pub contains_capability : List ℕ → ℕ → Bool
contains_capability [] c = false
contains_capability (x ∷ xs) c = if x == c then true else contains_capability xs c

unfoldable pub extract_session_material : Bytes × Bytes → Bytes → SessionMaterial
extract_session_material keys binding = record {
  id = take 32 binding;
  client_key = keys.0;
  server_key = keys.1;
}

module _ {HS : Type 0} where
  unfoldable pub new_ik_handshake_server :
      Bytes → Bytes → (Bytes → Option (ℕ × Bool)) → CookieManager → LoadMonitor → IkHandshake HS
  new_ik_handshake_server pub_key priv_key allowed cookies load = record {
    id = [];
    client_key = [];
    server_key = [];
    negotiated_capabilities = [];
    server_pub_key = some pub_key;
    server_priv_key = some priv_key;
    allowed_peers = some allowed;
    cookie_manager = some cookies;
    load_monitor = some load;
    client_pub_key = none;
    client_priv_key = none;
    peer_pub_key = none;
    authenticated_client_pub_key = [];
    cookie = [];
    pending_rekey = none;
  }

  unfoldable pub new_ik_handshake_client : Bytes → Bytes → Bytes → IkHandshake HS
  new_ik_handshake_client pub_key priv_key server_key = record {
    id = [];
    client_key = [];
    server_key = [];
    negotiated_capabilities = [];
    server_pub_key = none;
    server_priv_key = none;
    allowed_peers = none;
    cookie_manager = none;
    load_monitor = none;
    client_pub_key = some pub_key;
    client_priv_key = some priv_key;
    peer_pub_key = some server_key;
    authenticated_client_pub_key = [];
    cookie = [];
    pending_rekey = none;
  }

  unfoldable pub supports : IkHandshake HS → ℕ → Bool
  unfolding contains_capability
  supports h c = contains_capability h.negotiated_capabilities c

  unfoldable pub apply_session_material : IkHandshake HS → SessionMaterial → IkHandshake HS
  apply_session_material h m = record h {
    client_key = m.client_key;
    server_key = m.server_key;
    id = m.id;
  }

  unfoldable pub validate_server_config : IkHandshake HS → Option Error
  validate_server_config h = elim h.server_priv_key [
    | none ↦ some missing_server_key
    | some a ↦ elim h.server_pub_key [
      | none ↦ some missing_server_key
      | some b ↦ elim h.allowed_peers [ none ↦ some missing_allowed_peers | some c ↦ none ]
    ]
  ]

  unfoldable pub validate_client_config : IkHandshake HS → Option Error
  validate_client_config h = elim h.client_priv_key [
    | none ↦ some missing_client_key
    | some a ↦ elim h.client_pub_key [
      | none ↦ some missing_client_key
      | some b ↦ elim h.peer_pub_key [ none ↦ some missing_server_key | some c ↦ none ]
    ]
  ]

  -- `h.allowedPeers.Lookup`
  unfoldable pub lookup : IkHandshake HS → Bytes → Option (ℕ × Bool)
  lookup h key = elim h.allowed_peers [ none ↦ none | some f ↦ f key ]

  -- `h.loadMonitor.RecordHandshake()`, if there is one
  unfoldable pub recorded : ℕ → IkHandshake HS → IkHandshake HS
  recorded now h = elim h.load_monitor [
    | none ↦ h
    | some lm ↦ record h { load_monitor = some (record_handshake now lm) }
  ]

  -- The cookie manager to ask, where there is one and the load asks for it.
  unfoldable pub needs_cookie : IkHandshake HS → Option CookieManager
  needs_cookie h = elim h.load_monitor [
    | none ↦ none
    | some lm ↦ (if under_load lm then h.cookie_manager else none)
  ]
