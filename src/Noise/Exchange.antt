-- ===== src/Noise/Exchange.antt =====
-- A handshake between an honest client and an honest server (ik_handshake.go): both come out with the
-- same session. The link is a queue of messages; a run of the Noise library is a hypothesis.
pub mod Agreement
pub mod Gate
use tun_go.Base.{
  ℕ, ◌+◌, ◌<◌, ◌≤◌, ◌≡◌, ◌∙◌, refl, sym, ap, List, [], ◌∷◌, ◌++◌, Bool, true, false, Option, none,
  some, ltb, ◌==◌, ◌&&◌, not, if◌then◌else◌, Bytes, length, take, Result, ok, err, eof, Error,
  arith,
}
use tun_go.Ip.{Addr, same}
use tun_go.Ip.Addresses.{same_self}
use tun_go.Noise.Mac.{
  Blake, BlakeLaws, verify_mac1, extract_noise_msg, append_macs, prepend_version, check_version,
}
use tun_go.Noise.Mac.Appended.{verify_mac1-append_macs, check_version-prepend_version}
use tun_go.Noise.Cookie.{XAead, CookieManager, is_cookie_reply}
use tun_go.Noise.Handshake.{
  NoiseLib, Transport, SessionMaterial, IkHandshake, bytes_of, capability_rekey_v2, recorded,
  extract_session_material, apply_session_material, contains_capability, supports,
  validate_server_config, validate_client_config, lookup, needs_cookie,
}
use tun_go.Noise.Responder.{
  select_capabilities, send_msg2, answer_client, authorise, run_responder_noise,
  enforce_cookie_if_needed, accept_client, past_mac1, read_msg1, server_side_handshake,
}
use tun_go.Noise.Initiator.{
  take_selected, read_response, send_msg1, initiator_attempt, take_capabilities, complete_read,
  complete_initiator_from_msg2, applied, first_response, client_side_handshake,
}

pub record Link : Type 0 where
  pub incoming : List Bytes
  pub outgoing : List Bytes
  pub remote : Option Addr

-- A datagram is cut to the size of the buffer.
unfoldable pub read_link : Link → ℕ → Link × Result Bytes
read_link l n = elim l.incoming [
  | [] ↦ (l, err eof)
  | m ∷ ms ↦ (record l { incoming = ms }, ok (take n m))
]

unfoldable pub write_link : Link → Bytes → Link × Result ℕ
write_link l m = (record l { outgoing = l.outgoing ++ m ∷ [] }, ok (length m))

abbrev pub link : Transport Link
link = record { read = read_link; write = write_link; remote_addr = λ l. l.remote }

-- What flynn/noise does for an initiator and a responder that know each other: two messages, their
-- sizes, the payloads, the other's static key, and one pair of keys and one channel binding.
pub record IkRun {HS : Type 0} (lib : NoiseLib HS)
    (client_priv client_pub server_priv server_pub : Bytes) (a b : ℕ) (p q : Bytes) : Type 0 where
  pub i : HS
  pub i' : HS
  pub i'' : HS
  pub r : HS
  pub r' : HS
  pub r'' : HS
  pub m1 : Bytes
  pub m2 : Bytes
  pub keys : Bytes × Bytes
  pub initiated : lib.new_initiator client_priv client_pub server_pub [] a ≡ ok i
  pub responded : lib.new_responder server_priv server_pub [] b ≡ ok r
  pub wrote1 : lib.write_message i p ≡ (i', ok (m1, none))
  pub read1 : lib.read_message r m1 ≡ (r', ok (p, none))
  pub wrote2 : lib.write_message r' q ≡ (r'', ok (m2, some keys))
  pub read2 : lib.read_message i' m2 ≡ (i'', ok (q, some keys))
  pub client_known : lib.peer_static r' ≡ client_pub
  pub server_known : lib.peer_static i'' ≡ server_pub
  pub bound : lib.channel_binding i'' ≡ lib.channel_binding r''
  pub length-m1 : length m1 ≡ 96 + length p
  pub length-m2 : length m2 ≡ 48 + length q

-- A server and a client that are set up for each other.
pub record IsSetUp {HS : Type 0} (client server : IkHandshake HS)
    (client_priv client_pub server_priv server_pub : Bytes) (id : ℕ) : Type 0 where
  pub own_pub : client.client_pub_key ≡ some client_pub
  pub own_priv : client.client_priv_key ≡ some client_priv
  pub peer : client.peer_pub_key ≡ some server_pub
  pub server_own_pub : server.server_pub_key ≡ some server_pub
  pub server_own_priv : server.server_priv_key ≡ some server_priv
  pub configured : validate_server_config server ≡ none
  pub listed : lookup server client_pub ≡ some (id, true)

abbrev pub offer : List ℕ
offer = capability_rekey_v2 ∷ []

module _ {HS : Type 0} (lib : NoiseLib HS) (blake : Blake) (laws : BlakeLaws blake)
    (x : XAead) where
  module _ (client server : IkHandshake HS) (cpriv cpub spriv spub : Bytes) (id a b : ℕ) where
    module _ (up : IsSetUp client server cpriv cpub spriv spub id)
        (run : IkRun lib cpriv cpub spriv spub a b offer offer) where
      -- The responder on the first message.
      pub responder_answers :
          (l : Link) (m : Bytes)
          → extract_noise_msg m ≡ some run.m1
          → run_responder_noise lib link server b l m ≡ (
            record l { outgoing = l.outgoing ++ run.m2 ∷ [] },
            ok (record {
              client_id = id;
              client_pub_key = cpub;
              negotiated_capabilities = offer;
              material = extract_session_material run.keys (lib.channel_binding run.r'');
            }),
          )
      unfolding run_responder_noise authorise answer_client send_msg2 select_capabilities
          contains_capability write_link
      responder_answers l m e = ground (
        arith, up.server_own_priv, up.server_own_pub, e, run.responded, run.read1, run.client_known,
        up.listed, run.wrote2,
      )

      -- The initiator on the second message.
      pub initiator_completes : complete_initiator_from_msg2 lib client run.i' run.m2 true ≡ (
        record client { negotiated_capabilities = offer },
        ok (extract_session_material run.keys (lib.channel_binding run.i'')),
      )
      unfolding complete_initiator_from_msg2 complete_read take_capabilities take_selected
      initiator_completes = ground (arith, run.read2, run.server_known, up.peer, same_self spub)
