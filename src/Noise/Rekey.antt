-- ===== src/Noise/Rekey.antt =====
-- src/internal/protocol/noise/rekey_v2.go: the handshake of a V2 rekey, inside an established session.
-- "no rekey in progress" is the error `no_session`.
pub mod Agreement
mod Tests
use tun_go.Base.{
  ℕ, [], Bool, true, false, Option, none, some, not, if◌then◌else◌, Bytes, Result, ok, err, Error,
  rekey_refused, rekey_in_progress, no_session, handshake_incomplete, server_key_mismatch,
  unknown_peer, peer_disabled,
}
use tun_go.Ip.{same}
use tun_go.Noise.Handshake.{
  NoiseLib, IkHandshake, bytes_of, capability_rekey_v2, supports, extract_session_material,
  validate_server_config, validate_client_config, lookup,
}

module _ {HS : Type 0} (lib : NoiseLib HS) where
  -- `WriteMessage` on the new state, which is kept.
  unfoldable pub begin_rekey : IkHandshake HS → HS → IkHandshake HS × Result Bytes
  begin_rekey h hs =
      let w = lib.write_message hs [] in
      elim w.1 [ err e ↦ (h, err e) | ok m ↦ (record h { pending_rekey = some w.0 }, ok m.0) ]

  -- `seed` is that of the ephemeral key.
  unfoldable pub start_rekey_v2 : IkHandshake HS → Bytes → ℕ → IkHandshake HS × Result Bytes
  unfolding begin_rekey
  start_rekey_v2 h prologue seed =
      if not (supports h capability_rekey_v2)
      then (h, err rekey_refused)
      else elim (validate_client_config h) [
        | some e ↦ (h, err e)
        | none ↦ elim h.pending_rekey [
          | some hs ↦ (h, err rekey_in_progress)
          | none ↦
              elim (lib.new_initiator (bytes_of h.client_priv_key) (bytes_of h.client_pub_key)
                (bytes_of h.peer_pub_key) prologue seed) [
                  | err e ↦ (h, err e)
                  | ok hs ↦ begin_rekey h hs
                ]
        ]
      ]

  -- The keys of the second message, for the pending state `hs`.
  unfoldable pub finish_read : IkHandshake HS → HS → Bytes → Result (Bytes × Bytes)
  finish_read h hs msg2 =
      let r = lib.read_message hs msg2 in
      elim r.1 [
        | err e ↦ err e
        | ok m ↦ elim m.1 [
          | none ↦ err handshake_incomplete
          | some keys ↦
              (let material = extract_session_material keys (lib.channel_binding r.0) in
                if not (same (lib.peer_static r.0) (bytes_of h.peer_pub_key))
                then err server_key_mismatch
                else ok (material.client_key, material.server_key))
        ]
      ]

  unfoldable pub finish_rekey_v2 : IkHandshake HS → Bytes → IkHandshake HS × Result (Bytes × Bytes)
  unfolding finish_read
  finish_rekey_v2 h msg2 = elim h.pending_rekey [
    | none ↦ (h, err no_session)
    | some hs ↦ (record h { pending_rekey = none }, finish_read h hs msg2)
  ]

  -- The response to the client that the session belongs to.
  unfoldable pub respond : HS → Result (Bytes × Bytes × Bytes)
  respond hs =
      let w = lib.write_message hs [] in
      elim w.1 [
        | err e ↦ err e
        | ok m ↦ elim m.1 [
          | none ↦ err handshake_incomplete
          | some keys ↦
              (let material = extract_session_material keys (lib.channel_binding w.0) in
                ok (m.0, material.client_key, material.server_key))
        ]
      ]

  unfoldable pub respond_known : IkHandshake HS → HS → Result (Bytes × Bytes × Bytes)
  unfolding respond
  respond_known h hs =
      if not (same (lib.peer_static hs) h.authenticated_client_pub_key)
      then err unknown_peer
      else elim (lookup h (lib.peer_static hs)) [
        | none ↦ err unknown_peer
        | some peer ↦ (if peer.1 then respond hs else err peer_disabled)
      ]

  unfoldable pub respond_rekey_v2 :
      IkHandshake HS → Bytes → Bytes → ℕ → Result (Bytes × Bytes × Bytes)
  unfolding respond_known
  respond_rekey_v2 h prologue msg1 seed =
      if not (supports h capability_rekey_v2)
      then err rekey_refused
      else elim (validate_server_config h) [
        | some e ↦ err e
        | none ↦
            elim (lib.new_responder (bytes_of h.server_priv_key) (bytes_of h.server_pub_key)
              prologue seed) [
                | err e ↦ err e
                | ok hs ↦
                    (let r = lib.read_message hs msg1 in
                      elim r.1 [ err e ↦ err e | ok m ↦ respond_known h r.0 ])
              ]
      ]
