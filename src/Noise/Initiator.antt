-- ===== src/Noise/Initiator.antt =====
-- src/internal/protocol/noise/ik_handshake.go: the client's side of the handshake. An attempt gets
-- the seed of its ephemeral key and what the random source fills a missing MAC with.
use tun_go.Base.{
  ℕ, List, [], ◌∷◌, ◌++◌, Bool, true, false, Option, none, some, ◌&&◌, not, ◌==◌, if◌then◌else◌,
  Bytes, Result, ok, err, Error, handshake_incomplete, server_key_mismatch, unsupported_capability,
  unexpected_cookie,
}
use tun_go.Ip.{same}
use tun_go.Noise.Mac.{Blake, append_macs, prepend_version}
use tun_go.Noise.Cookie.{XAead, decrypt_cookie_reply, is_cookie_reply}
use tun_go.Noise.Handshake.{
  NoiseLib, Transport, SessionMaterial, IkHandshake, bytes_of, capability_rekey_v2,
  extract_session_material, apply_session_material, validate_client_config,
}

-- The loop over what the server selected: anything but Rekey V2 is refused.
unfoldable pub take_selected : List ℕ → List ℕ → List ℕ × Option Error
take_selected taken [] = (taken, none)
take_selected taken (c ∷ cs) =
    if c == capability_rekey_v2
    then take_selected (taken ++ c ∷ []) cs
    else (taken, some unsupported_capability)

module _ {HS T : Type 0} (lib : NoiseLib HS) (blake : Blake) (tr : Transport T) where
  unfoldable pub read_response : HS → T × Result Bytes → T × Result (HS × Bytes)
  read_response hs (t, err e) = (t, err e)
  read_response hs (t, ok response) = (t, ok (hs, response))

  unfoldable pub send_msg1 : HS → T → Bytes → T × Result (HS × Bytes)
  unfolding read_response
  send_msg1 hs t m =
      let w = tr.write t (prepend_version m) in
      elim w.1 [ err e ↦ (w.0, err e) | ok n ↦ read_response hs (tr.read w.0 2048) ]

  unfoldable pub initiator_attempt : IkHandshake HS → Option Bytes → ℕ → T → T × Result (HS × Bytes)
  unfolding send_msg1
  initiator_attempt h random seed t =
      elim (lib.new_initiator (bytes_of h.client_priv_key) (bytes_of h.client_pub_key)
        (bytes_of h.peer_pub_key) [] seed) [
          | err e ↦ (t, err e)
          | ok hs ↦
              (let w = lib.write_message hs (capability_rekey_v2 ∷ []) in
                elim w.1 [
                  | err e ↦ (t, err e)
                  | ok msg1 ↦
                      elim (append_macs blake random msg1.0 (bytes_of h.peer_pub_key) h.cookie) [
                        | err e ↦ (t, err e)
                        | ok m ↦ send_msg1 w.0 t m
                      ]
                ])
        ]

module _ {HS : Type 0} (lib : NoiseLib HS) where
  unfoldable pub take_capabilities :
      IkHandshake HS → HS → List ℕ → Bytes × Bytes → IkHandshake HS × Result SessionMaterial
  take_capabilities h hs selected keys =
      let taken = take_selected [] selected in
      elim taken.1 [
        | some e ↦ (record h { negotiated_capabilities = taken.0 }, err e)
        | none ↦ (
          record h { negotiated_capabilities = taken.0 },
          ok (extract_session_material keys (lib.channel_binding hs)),
        )
      ]

  unfoldable pub complete_read :
      IkHandshake HS
      → Bool
      → HS × Result (Bytes × Option (Bytes × Bytes))
      → IkHandshake HS × Result SessionMaterial
  unfolding take_capabilities
  complete_read h verify (hs, err e) = (h, err e)
  complete_read h verify (hs, ok (selected, none)) = (h, err handshake_incomplete)
  complete_read h verify (hs, ok (selected, some keys)) =
      if verify && not (same (lib.peer_static hs) (bytes_of h.peer_pub_key))
      then (h, err server_key_mismatch)
      else take_capabilities h hs selected keys

  unfoldable pub complete_initiator_from_msg2 :
      IkHandshake HS → HS → Bytes → Bool → IkHandshake HS × Result SessionMaterial
  unfolding complete_read
  complete_initiator_from_msg2 h hs response verify =
      complete_read h verify (lib.read_message hs response)

  -- `applySessionMaterial` on a success
  unfoldable pub applied : IkHandshake HS × Result SessionMaterial → IkHandshake HS × Result ℕ
  applied (h, err e) = (h, err e)
  applied (h, ok m) = (apply_session_material h m, ok 0)

module _ {HS T : Type 0} (lib : NoiseLib HS) (blake : Blake) (x : XAead) (tr : Transport T) where
  -- The attempt that carries the cookie.
  unfoldable pub finish_retry :
      IkHandshake HS → T × Result (HS × Bytes) → IkHandshake HS × T × Result ℕ
  unfolding complete_initiator_from_msg2 applied
  finish_retry h (t, err e) = (h, t, err e)
  finish_retry h (t, ok (hs, response)) =
      if is_cookie_reply response
      then (h, t, err unexpected_cookie)
      else (let r = applied lib (complete_initiator_from_msg2 lib h hs response false) in
          (r.0, t, r.1))

  unfoldable pub retry :
      IkHandshake HS → Option Bytes → ℕ → T → Result Bytes → IkHandshake HS × T × Result ℕ
  unfolding finish_retry initiator_attempt
  retry h random seed t (err e) = (h, t, err e)
  retry h random seed t (ok cookie) =
      let h' : IkHandshake HS = record h { cookie = cookie } in
      finish_retry h' (initiator_attempt lib blake tr h' random seed t)

  unfoldable pub first_response :
      IkHandshake HS → Option Bytes → ℕ → T × Result (HS × Bytes) → IkHandshake HS × T × Result ℕ
  unfolding retry complete_initiator_from_msg2 applied
  first_response h random seed (t, err e) = (h, t, err e)
  first_response h random seed (t, ok (hs, response)) =
      if is_cookie_reply response
      then retry h random seed t
          (decrypt_cookie_reply blake x response (lib.local_ephemeral hs) (bytes_of h.peer_pub_key))
      else (let r = applied lib (complete_initiator_from_msg2 lib h hs response true) in
          (r.0, t, r.1))

  -- The two seeds and the two fillings are those of the two attempts.
  unfoldable pub client_side_handshake :
      IkHandshake HS → Option Bytes × ℕ → Option Bytes × ℕ → T → IkHandshake HS × T × Result ℕ
  unfolding first_response initiator_attempt
  client_side_handshake h one two t = elim (validate_client_config h) [
    | some e ↦ (h, t, err e)
    | none ↦ first_response h two.0 two.1 (initiator_attempt lib blake tr h one.0 one.1 t)
  ]
