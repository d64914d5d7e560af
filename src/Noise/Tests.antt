-- ===== src/Noise/Tests.antt =====
-- A handshake over a Noise library, a hash and a sealing that do nothing.
use tun_go.Base.{
  ℕ, ◌-◌, ◌≡◌, ◌≢◌, refl, ap, [], ◌∷◌, ◌++◌, Bool, true, false, Option, none, some, ◌==◌,
  if◌then◌else◌, Bytes, length, take, drop, replicate, Result, ok, arith, length-append,
  take-append_of_length,
}
use tun_go.Ip.{Addr, v4, same}
use tun_go.Noise.Mac.{
  Blake, BlakeLaws, append_macs, prepend_version, verify_mac1, verify_mac2, check_version,
}
use tun_go.Noise.Cookie.{
  XAead, XAeadLaws, CookieManager, bucket_cookie, compute_cookie_value, create_cookie_reply,
  decrypt_cookie_reply, is_cookie_reply, verify_mac2_for_client,
}
use tun_go.Noise.LoadMonitor.{LoadMonitor, record_handshake, under_load}
use tun_go.Noise.Handshake.{
  NoiseLib, IkHandshake, new_ik_handshake_server, new_ik_handshake_client, recorded, needs_cookie,
  validate_server_config, lookup,
}
use tun_go.Noise.Responder.{server_side_handshake, enforce_cookie_if_needed}
use tun_go.Noise.Responder.Service.{IsAdmitted, handshake_admits, flood_spared}
use tun_go.Noise.Initiator.{client_side_handshake}
use tun_go.Noise.Exchange.{Link, link, read_link, IkRun, IsSetUp, offer}
use tun_go.Noise.Exchange.Agreement.{Agrees, expecting, handshake-Agrees}
use tun_go.Noise.Exchange.Gate.{gate_idle, retry_passes}

abbrev blake : Blake
blake = record { hash256 = λ b. replicate 32 5; hash128 = λ k b. length b ∷ replicate 15 6 }

blake_laws : BlakeLaws blake
blake_laws = record { length-hash256 = λ b. refl; length-hash128 = λ k b. refl }

abbrev sealing : XAead
sealing = record {
  seal = λ k n p ad. p ++ replicate 16 0;
  unseal = λ k n c ad. some (take (length c - 16) c);
}

sealing_laws : XAeadLaws sealing
sealing_laws = record {
  length-seal = λ k n p ad. length-append p (replicate 16 0);
  unseal-seal = λ k n p ad. ap some (
      take-append_of_length (length (p ++ replicate 16 0) - 16) p (replicate 16 0)
        (omega (arith, length-append p (replicate 16 0))));
}

abbrev client_pub : Bytes
client_pub = replicate 32 1

abbrev server_pub : Bytes
server_pub = replicate 32 2

abbrev keys : Bytes × Bytes
keys = (3 ∷ [], 4 ∷ [])

-- The states of the initiator are 0, 1 and 2, and those of the responder 10, 11 and 12.
abbrev lib_of : Bytes → NoiseLib ℕ
lib_of binding = record {
  new_initiator = λ priv pub_key peer prologue seed. ok 0;
  new_responder = λ priv pub_key prologue seed. ok 10;
  read_message =
      λ s m. if s == 10 then (11, ok (drop 96 m, none)) else (2, ok (drop 48 m, some keys));
  write_message = λ s p.
      if s == 0
      then (1, ok (replicate 96 8 ++ p, none))
      else (12, ok (replicate 48 9 ++ p, some keys));
  peer_static = λ s. if s == 11 then client_pub else server_pub;
  local_ephemeral = λ s. replicate 32 8;
  channel_binding = λ s. binding;
}

abbrev lib : NoiseLib ℕ
lib = lib_of (7 ∷ [])

abbrev msg1 : Bytes
msg1 = replicate 96 8 ++ offer

run : IkRun lib [] client_pub [] server_pub 0 0 offer offer
run = record {
  i = 0;
  i' = 1;
  i'' = 2;
  r = 10;
  r' = 11;
  r'' = 12;
  m1 = msg1;
  m2 = replicate 48 9 ++ offer;
  keys = keys;
  initiated = refl;
  responded = refl;
  wrote1 = refl;
  read1 = refl;
  wrote2 = refl;
  read2 = refl;
  client_known = refl;
  server_known = refl;
  bound = refl;
  length-m1 = refl;
  length-m2 = refl;
}

abbrev cookies : CookieManager
cookies = record { secret = replicate 32 3 }

abbrev allowed : Bytes → Option (ℕ × Bool)
allowed k = if same k client_pub then some (5, true) else none

abbrev idle : LoadMonitor
idle = record { handshakes_per_second = 0; threshold = 1000; counter = 0; last_reset_time = 40 }

abbrev busy : LoadMonitor
busy = record { handshakes_per_second = 5000; threshold = 1000; counter = 3; last_reset_time = 40 }

abbrev server : LoadMonitor → IkHandshake ℕ
server load = new_ik_handshake_server server_pub [] allowed cookies load

abbrev client : IkHandshake ℕ
client = new_ik_handshake_client client_pub [] server_pub

set_up : IsSetUp client (server idle) [] client_pub [] server_pub 5
unfolding new_ik_handshake_server new_ik_handshake_client validate_server_config lookup same
set_up = record {
  own_pub = refl;
  own_priv = refl;
  peer = refl;
  server_own_pub = refl;
  server_own_priv = refl;
  configured = refl;
  listed = refl;
}

abbrev filling : Bytes
filling = replicate 16 0

abbrev mac1 : Bytes
mac1 = 97 ∷ replicate 15 6

-- The first message, without a cookie.
abbrev message : Bytes
message = msg1 ++ (mac1 ++ filling)

sent : append_macs blake (some filling) run.m1 server_pub client.cookie ≡ ok message
unfolding append_macs new_ik_handshake_client run
sent = refl

no_load : needs_cookie (recorded 40 (server idle)) ≡ none
unfolding needs_cookie recorded record_handshake under_load new_ik_handshake_server
no_load = refl

abbrev drained : Link
drained = record { incoming = []; outgoing = []; remote = none }

open_gate :
    enforce_cookie_if_needed blake sealing link (recorded 40 (server idle)) 40 none drained message
    ≡ (drained, none)
open_gate =
    gate_idle blake blake_laws sealing link (recorded 40 (server idle)) 40 none drained message
      no_load

abbrev client_end : IkHandshake ℕ × Link × Result ℕ
client_end =
    client_side_handshake lib blake sealing link client (some filling, 0) (none, 0)
      (expecting run.m2 none)

abbrev server_end : IkHandshake ℕ × Link × Result ℕ
server_end =
    server_side_handshake lib blake sealing link (server idle) 40 none 0
      (expecting (prepend_version message) none)

handshake-Agrees_example :
    (client_end.1.outgoing ≡ prepend_version message ∷ [])
    × (server_end.1.outgoing ≡ run.m2 ∷ [])
    × (client_end.2 ≡ ok 0)
    × (server_end.2 ≡ ok 5)
    × Agrees client_end.0 server_end.0 client_pub
handshake-Agrees_example =
    handshake-Agrees lib blake blake_laws sealing client (server idle) [] client_pub [] server_pub 5
      0 0 set_up run filling refl message sent 40 none none open_gate

accepted : server_end.2 ≡ ok 5
accepted =
    (handshake-Agrees lib blake blake_laws sealing client (server idle) [] client_pub [] server_pub
      5 0 0 set_up run filling refl message sent 40 none none open_gate).3

handshake_admits_example :
    IsAdmitted lib blake link
      (server idle)
      40
      0
      (expecting (prepend_version message) none)
      server_end.0.authenticated_client_pub_key
      5
handshake_admits_example =
    handshake_admits lib blake sealing link (server idle) 40 none 0
      (expecting (prepend_version message) none) 5 accepted

abbrev ip : Addr
ip = v4 (192 ∷ 0 ∷ 2 ∷ 1 ∷ [])

abbrev flood : Link
flood = expecting (prepend_version message) (some ip)

configured : validate_server_config (server busy) ≡ none
unfolding validate_server_config new_ik_handshake_server
configured = refl

was_read : (link.read flood 2048).1 ≡ ok (prepend_version message)
unfolding read_link prepend_version
was_read = refl

version : check_version (prepend_version message) ≡ ok message
unfolding check_version prepend_version
version = refl

right_mac1 : verify_mac1 blake message server_pub ≡ true
unfolding verify_mac1 same
right_mac1 = refl

loaded : needs_cookie (recorded 40 (server busy)) ≡ some cookies
unfolding needs_cookie recorded record_handshake under_load new_ik_handshake_server
loaded = refl

no_mac2 : verify_mac2_for_client blake cookies 40 message ip ≡ false
unfolding verify_mac2_for_client verify_mac2 same compute_cookie_value
no_mac2 = refl

abbrev flooded : NoiseLib ℕ → IkHandshake ℕ × Link × Result ℕ
flooded l =
    server_side_handshake l blake sealing link (server busy) 40 (some (replicate 24 1)) 0 flood

flood_spared_example : (flooded lib ≡ flooded (lib_of [])) × ((id : ℕ) → (flooded lib).2 ≢ ok id)
unfolding new_ik_handshake_server read_link
flood_spared_example =
    flood_spared lib (lib_of []) blake sealing link (server busy) 40 (some (replicate 24 1)) 0 flood
      (prepend_version message) message cookies ip configured was_read version right_mac1 loaded
      refl no_mac2

abbrev cookie : Bytes
cookie = compute_cookie_value blake cookies 240 ip

abbrev reply : Bytes
reply = replicate 24 1 ++ (cookie ++ replicate 16 0)

challenged :
    create_cookie_reply blake sealing cookies 240
      (some (replicate 24 1))
      ip
      (replicate 32 8)
      server_pub
    ≡ ok reply
unfolding create_cookie_reply
challenged = refl

-- The second attempt.
abbrev retried : Bytes
retried = msg1 ++ (mac1 ++ (113 ∷ replicate 15 6))

carried : append_macs blake (some filling) msg1 server_pub cookie ≡ ok retried
unfolding append_macs compute_cookie_value bucket_cookie
carried = refl

retry_passes_example :
    (is_cookie_reply reply ≡ true)
    × (decrypt_cookie_reply blake sealing reply (replicate 32 8) server_pub ≡ ok cookie)
    × (enforce_cookie_if_needed blake sealing link
          (recorded 40 (server busy))
          300
          none
          flood
          retried
        ≡ (flood, none))
retry_passes_example =
    retry_passes blake blake_laws sealing sealing_laws link (recorded 40 (server busy)) cookies ip
      240 300 (replicate 24 1) filling (replicate 32 8) server_pub reply msg1 retried none flood
      refl refl (omega arith) (omega arith) (omega arith) (omega arith) challenged carried loaded
      refl
