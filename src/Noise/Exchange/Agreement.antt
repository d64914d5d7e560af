-- ===== src/Noise/Exchange/Agreement.antt =====
-- The two sides of an honest handshake agree (ik_handshake.go).
use tun_go.Base.{
  ℕ, zero, suc, ◌+◌, ◌≤◌, ◌≡◌, ◌∙◌, refl, sym, ap, [], ◌∷◌, true, Option, none, some, Bytes, length,
  take, Result, ok, arith, Option-cases, inl, inr,
}
use tun_go.Ip.{Addr}
use tun_go.Noise.Mac.{Blake, BlakeLaws, verify_mac1, append_macs, prepend_version, check_version}
use tun_go.Noise.Mac.Appended.{verify_mac1-append_macs, check_version-prepend_version}
use tun_go.Noise.Cookie.{XAead, is_cookie_reply}
use tun_go.Noise.Handshake.{
  NoiseLib, IkHandshake, bytes_of, capability_rekey_v2, recorded, extract_session_material,
  apply_session_material, contains_capability, supports, validate_server_config,
  validate_client_config, lookup,
}
use tun_go.Noise.Responder.{
  run_responder_noise, enforce_cookie_if_needed, accept_client, past_mac1, server_side_handshake,
}
use tun_go.Noise.Initiator.{
  read_response, send_msg1, initiator_attempt, applied, first_response, client_side_handshake,
}
use tun_go.Noise.Mac.Appended.{length-append_macs}
use tun_go.Noise.Responder.Admission.{past_mac1_ok}
use tun_go.Noise.Responder.Service.{read_through}
use tun_go.Noise.Exchange.{
  Link, read_link, write_link, link, IkRun, IsSetUp, offer, responder_answers, initiator_completes,
}

-- A message that fits the buffer is read whole.
read_whole : (m : Bytes) (n : ℕ) → length m ≤ n → take n m ≡ m
read_whole m zero h = ground (arith, whole_empty m)
  where
    whole_empty : (bytes : Bytes) → length bytes ≤ 0 → [] ≡ bytes
    whole_empty [] _ = refl
    whole_empty (b ∷ bytes) long = absurd (omega (arith, long))
read_whole [] (suc n) h = refl
read_whole (b ∷ m) (suc n) h = ground (arith, read_whole m n)

-- The link of a side that will get one message.
abbrev pub expecting : Bytes → Option Addr → Link
expecting m remote = record { incoming = m ∷ []; outgoing = []; remote = remote }

abbrev pub answered : Bytes → Option Addr → Link
answered m remote = record { incoming = []; outgoing = m ∷ []; remote = remote }

read_expected :
    (m : Bytes) (remote : Option Addr)
    → length m ≤ 2048
    → read_link (expecting m remote) 2048
      ≡ (record { incoming = []; outgoing = []; remote = remote }, ok m)
unfolding read_link
read_expected m remote h = rw (read_whole m 2048 h) refl

length-prepend_version : (m : Bytes) → length (prepend_version m) ≡ length m + 1
unfolding prepend_version
length-prepend_version m = omega arith

-- The two sides of a session: the same keys, the same session id, the peer that was meant, and
-- Rekey V2 on both sides.
pub record Agrees {HS : Type 0} (client server : IkHandshake HS) (client_pub : Bytes) : Type 0 where
  pub same_id : client.id ≡ server.id
  pub same_client_key : client.client_key ≡ server.client_key
  pub same_server_key : client.server_key ≡ server.server_key
  pub authenticated : server.authenticated_client_pub_key ≡ client_pub
  pub client_rekeys : supports client capability_rekey_v2 ≡ true
  pub server_rekeys : supports server capability_rekey_v2 ≡ true

module _ {HS : Type 0} (lib : NoiseLib HS) (blake : Blake) (laws : BlakeLaws blake)
    (x : XAead) where
  module _ (client server : IkHandshake HS) (cpriv cpub spriv spub : Bytes) (id a b : ℕ) where
    module _ (up : IsSetUp client server cpriv cpub spriv spub id)
        (run : IkRun lib cpriv cpub spriv spub a b offer offer) (filling : Bytes)
        (filled : length filling ≡ 16) (m : Bytes)
        (sent : append_macs blake (some filling) run.m1 spub client.cookie ≡ ok m) where
      sized : (r : Bytes) → some filling ≡ some r → length r ≡ 16
      sized r e = let same_bytes : filling ≡ r = cc in ap length (sym same_bytes) ∙ filled

      long : 80 ≤ length run.m1
      long = omega (arith, run.length-m1)

      attempt :
          (remote : Option Addr)
          → initiator_attempt lib blake link client (some filling) a (expecting run.m2 remote)
            ≡ (answered (prepend_version m) remote, ok (run.i', run.m2))
      unfolding initiator_attempt send_msg1 read_response write_link read_link
      attempt remote = ground (
        arith,
        up.own_priv,
        up.own_pub,
        up.peer,
        run.initiated,
        run.wrote1,
        sent,
        read_whole run.m2 2048 (omega (arith, run.length-m2)),
      )

      -- The client sends its message and takes the server's.
      client_done :
          (two : Option Bytes × ℕ) (remote : Option Addr)
          → client_side_handshake lib blake x link client
              (some filling, a)
              two
              (expecting run.m2 remote)
            ≡ (
              apply_session_material
                  (record client { negotiated_capabilities = offer })
                  (extract_session_material run.keys (lib.channel_binding run.i'')),
              answered (prepend_version m) remote,
              ok 0,
            )
      unfolding client_side_handshake first_response applied validate_client_config is_cookie_reply
      client_done two remote = ground (
        arith,
        up.own_priv,
        up.own_pub,
        up.peer,
        attempt remote,
        run.length-m2,
        initiator_completes lib blake laws x client server cpriv cpub spriv spub id a b up run,
      )

      -- The server, once its gate lets the message through.
      module _ (now : ℕ) (random : Option Bytes) (remote : Option Addr) where
        abbrev drained : Link
        drained = record { incoming = []; outgoing = []; remote = remote }

        recorded-IsSetUp : IsSetUp client (recorded now server) cpriv cpub spriv spub id
        unfolding recorded validate_server_config lookup
        recorded-IsSetUp = elim (Option-cases server.load_monitor) [
          | inl e ↦ rw (e, recorded) up
          | inr (lm, e) ↦
              rw (e, recorded)
                (record {
                  own_pub = up.own_pub;
                  own_priv = up.own_priv;
                  peer = up.peer;
                  server_own_pub = up.server_own_pub;
                  server_own_priv = up.server_own_priv;
                  configured = up.configured;
                  listed = up.listed;
                })
        ]

        abbrev established : IkHandshake HS
        established =
            record (apply_session_material (recorded now server)
              (extract_session_material run.keys (lib.channel_binding run.r''))) {
                authenticated_client_pub_key = cpub;
                negotiated_capabilities = offer;
              }

        module _
            (gate : enforce_cookie_if_needed blake x link (recorded now server) now random drained m
              ≡ (drained, none)) where
          responded :
              past_mac1 lib blake x link (recorded now server) now random b drained m
              ≡ (established, answered run.m2 remote, ok id)
          unfolding accept_client
          responded =
              past_mac1_ok blake x link (recorded now server) now random b drained m lib
                (ap (λ s. s.1) gate)
              ∙ ap
                  (λ s.
                    accept_client (recorded now server)
                      (run_responder_noise lib link (recorded now server) b s m))
                  (ap (λ s. s.0) gate)
              ∙ ap (accept_client (recorded now server)) (
                  responder_answers lib blake laws x client (recorded now server) cpriv cpub spriv
                    spub id a b recorded-IsSetUp run drained m
                    (verify_mac1-append_macs blake laws (some filling) run.m1 spub client.cookie m
                      long sized sent).1)

          server_done :
              server_side_handshake lib blake x link server now random b
                (expecting (prepend_version m) remote)
              ≡ (established, answered run.m2 remote, ok id)
          server_done =
              read_through lib blake x link server now random b
                (expecting (prepend_version m) remote) (prepend_version m) m up.configured
                (ap (λ s. s.1) came) version mac
              ∙ ap (λ s. past_mac1 lib blake x link (recorded now server) now random b s m)
                  (ap (λ s. s.0) came)
              ∙ responded
            where
              prefixed : length (prepend_version m) ≤ 2048
              prefixed = omega (
                arith,
                length-prepend_version m,
                length-append_macs blake laws (some filling) run.m1 spub client.cookie m long sized
                    sent,
                run.length-m1,
              )

              came :
                  read_link (expecting (prepend_version m) remote) 2048
                  ≡ (drained, ok (prepend_version m))
              came = read_expected (prepend_version m) remote prefixed

              version : check_version (prepend_version m) ≡ ok m
              version =
                  check_version-prepend_version m
                    (verify_mac1-append_macs blake laws (some filling) run.m1 spub client.cookie m
                      long sized sent).2

              mac : verify_mac1 blake m (bytes_of server.server_pub_key) ≡ true
              mac =
                  ap (λ k. verify_mac1 blake m (bytes_of k)) up.server_own_pub
                  ∙ (verify_mac1-append_macs blake laws (some filling) run.m1 spub client.cookie m
                      long sized sent).0

          abbrev client_end : IkHandshake HS × Link × Result ℕ
          client_end =
              client_side_handshake lib blake x link client (some filling, a) (none, 0)
                (expecting run.m2 none)

          abbrev server_end : IkHandshake HS × Link × Result ℕ
          server_end =
              server_side_handshake lib blake x link server now random b
                (expecting (prepend_version m) remote)

          agrees :
              Agrees
                (apply_session_material
                  (record client { negotiated_capabilities = offer })
                  (extract_session_material run.keys (lib.channel_binding run.i'')))
                established
                cpub
          unfolding apply_session_material extract_session_material supports contains_capability
          agrees = record {
            same_id = ap (take 32) run.bound;
            same_client_key = refl;
            same_server_key = refl;
            authenticated = refl;
            client_rekeys = refl;
            server_rekeys = refl;
          }

          -- If client and server know each other's static keys, the server lists and enables the
          -- client, the Noise library runs an IK handshake between them, the filling of the second
          -- MAC has its 16 bytes and the server's gate lets the message through, then both sides
          -- succeed, each writes the one message that the other reads, and they agree on session id
          -- and keys, on the client's identity and on Rekey V2.
          pub handshake-Agrees :
              (client_end.1.outgoing ≡ prepend_version m ∷ [])
              × (server_end.1.outgoing ≡ run.m2 ∷ [])
              × (client_end.2 ≡ ok 0)
              × (server_end.2 ≡ ok id)
              × Agrees client_end.0 server_end.0 cpub
          handshake-Agrees =
              rw (client_done (none, 0) none) (rw server_done (refl, refl, refl, refl, agrees))
