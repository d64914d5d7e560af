-- ===== src/Noise/Responder.antt =====
-- src/internal/protocol/noise/ik_handshake.go: the server's side of the handshake. A stage of the
-- method is a function; each returns the transport, which a failure may have written to.
pub mod Admission
pub mod Service
use tun_go.Base.{
  ℕ, List, [], ◌∷◌, Bool, Option, none, some, if◌then◌else◌, Bytes, Result, ok, err, Error,
  invalid_mac1, cookie_required, unknown_peer, peer_disabled, msg_too_short, handshake_incomplete,
}
use tun_go.Ip.{Addr}
use tun_go.Noise.Mac.{
  Blake, verify_mac1, extract_noise_msg, extract_client_ephemeral, check_version,
}
use tun_go.Noise.Cookie.{XAead, CookieManager, verify_mac2_for_client, create_cookie_reply}
use tun_go.Noise.Handshake.{
  NoiseLib, Transport, ServerHandshakeOutcome, IkHandshake, bytes_of, capability_rekey_v2,
  contains_capability, extract_session_material, apply_session_material, validate_server_config,
  lookup, recorded, needs_cookie,
}

-- What the capabilities that the client advertised let the server select.
unfoldable pub select_capabilities : List ℕ → List ℕ
select_capabilities advertised =
    if contains_capability advertised capability_rekey_v2 then capability_rekey_v2 ∷ [] else []

module _ {HS T : Type 0} (lib : NoiseLib HS) (tr : Transport T) where
  -- The second message is written; then the cipher states are looked at.
  unfoldable pub send_msg2 :
      HS
      → T
      → ℕ
      → Bytes
      → List ℕ
      → Bytes × Option (Bytes × Bytes)
      → T × Result ServerHandshakeOutcome
  send_msg2 hs t client_id client_key selected m =
      let w = tr.write t m.0 in
      elim w.1 [
        | err e ↦ (w.0, err e)
        | ok n ↦ elim m.1 [
          | none ↦ (w.0, err handshake_incomplete)
          | some keys ↦ (
            w.0,
            ok (record {
              client_id = client_id;
              client_pub_key = client_key;
              negotiated_capabilities = selected;
              material = extract_session_material keys (lib.channel_binding hs);
            }),
          )
        ]
      ]

  unfoldable pub answer_client :
      HS → T → Bytes → ℕ × Bool → List ℕ → T × Result ServerHandshakeOutcome
  unfolding send_msg2
  answer_client hs t client_key (client_id, enabled) advertised =
      if enabled
      then (let w = lib.write_message hs (select_capabilities advertised) in
          elim w.1 [
            | err e ↦ (t, err e)
            | ok m ↦ send_msg2 w.0 t client_id client_key (select_capabilities advertised) m
          ])
      else (t, err peer_disabled)

  unfoldable pub authorise :
      IkHandshake HS → HS → T → Bytes × Option (Bytes × Bytes) → T × Result ServerHandshakeOutcome
  unfolding answer_client
  authorise h hs t read = elim (lookup h (lib.peer_static hs)) [
    | none ↦ (t, err unknown_peer)
    | some peer ↦ answer_client hs t (lib.peer_static hs) peer read.0
  ]

  -- A message that is too short for the MACs has been refused before.
  unfoldable pub run_responder_noise :
      IkHandshake HS → ℕ → T → Bytes → T × Result ServerHandshakeOutcome
  unfolding authorise
  run_responder_noise h seed t m =
      elim (lib.new_responder (bytes_of h.server_priv_key) (bytes_of h.server_pub_key) [] seed) [
        | err e ↦ (t, err e)
        | ok hs ↦
            (let r = lib.read_message hs (bytes_of (extract_noise_msg m)) in
              elim r.1 [ err e ↦ (t, err e) | ok read ↦ authorise h r.0 t read ])
      ]

module _ {T : Type 0} (blake : Blake) (x : XAead) (tr : Transport T) where
  -- The reply goes out and the handshake is refused.
  unfoldable pub challenge :
      CookieManager → ℕ → Option Bytes → Bytes → Bytes → Addr → T → T × Option Error
  challenge cm now random key ephemeral ip t =
      elim (create_cookie_reply blake x cm now random ip ephemeral key) [
        | err e ↦ (t, some e)
        | ok reply ↦
            (let w = tr.write t reply in
              elim w.1 [ err e ↦ (w.0, some e) | ok n ↦ (w.0, some cookie_required) ])
      ]

  unfoldable pub check_cookie :
      CookieManager → ℕ → Option Bytes → Bytes → T → Bytes → T × Option Error
  unfolding challenge
  check_cookie cm now random key t m = elim (extract_client_ephemeral m) [
    | none ↦ (t, some msg_too_short)
    | some ephemeral ↦ elim (tr.remote_addr t) [
      | none ↦ (t, some cookie_required)
      | some ip ↦
          (if verify_mac2_for_client blake cm now m ip
            then (t, none)
            else challenge cm now random key ephemeral ip t)
    ]
  ]

module _ {HS T : Type 0} (blake : Blake) (x : XAead) (tr : Transport T) where
  unfoldable pub enforce_cookie_if_needed :
      IkHandshake HS → ℕ → Option Bytes → T → Bytes → T × Option Error
  unfolding check_cookie
  enforce_cookie_if_needed h now random t m = elim (needs_cookie h) [
    | none ↦ (t, none)
    | some cm ↦ check_cookie blake x tr cm now random (bytes_of h.server_pub_key) t m
  ]

module _ {HS T : Type 0} where
  unfoldable pub accept_client :
      IkHandshake HS → T × Result ServerHandshakeOutcome → IkHandshake HS × T × Result ℕ
  accept_client h (t, err e) = (h, t, err e)
  accept_client h (t, ok o) = (
    record (apply_session_material h o.material) {
      authenticated_client_pub_key = o.client_pub_key;
      negotiated_capabilities = o.negotiated_capabilities;
    },
    t,
    ok o.client_id,
  )

module _ {HS T : Type 0} (lib : NoiseLib HS) (blake : Blake) (x : XAead) (tr : Transport T) where
  unfoldable pub past_mac1 :
      IkHandshake HS → ℕ → Option Bytes → ℕ → T → Bytes → IkHandshake HS × T × Result ℕ
  unfolding accept_client run_responder_noise enforce_cookie_if_needed
  past_mac1 h now random seed t m =
      let gate = enforce_cookie_if_needed blake x tr h now random t m in
      elim gate.1 [
        | some e ↦ (h, gate.0, err e)
        | none ↦ accept_client h (run_responder_noise lib tr h seed gate.0 m)
      ]

  unfoldable pub read_msg1 :
      IkHandshake HS → ℕ → Option Bytes → ℕ → T × Result Bytes → IkHandshake HS × T × Result ℕ
  unfolding past_mac1
  read_msg1 h now random seed (t, err e) = (h, t, err e)
  read_msg1 h now random seed (t, ok b) = elim (check_version b) [
    | err e ↦ (h, t, err e)
    | ok m ↦
        (if verify_mac1 blake m (bytes_of h.server_pub_key)
          then past_mac1 (recorded now h) now random seed t m
          else (h, t, err invalid_mac1))
  ]

  unfoldable pub server_side_handshake :
      IkHandshake HS → ℕ → Option Bytes → ℕ → T → IkHandshake HS × T × Result ℕ
  unfolding read_msg1
  server_side_handshake h now random seed t = elim (validate_server_config h) [
    | some e ↦ (h, t, err e)
    | none ↦ read_msg1 h now random seed (tr.read t 2048)
  ]
