-- ===== src/Server/Samples.antt =====
-- One client, registered with a server whose sessions do not encrypt.
mod Tests
use tun_go.Base.{
  ℕ, ◌+◌, ◌<◌, ◌≤◌, ◌≡◌, ◌≢◌, refl, List, [], ◌∷◌, ◌++◌, Bool, true, false, Option, none, some,
  Bytes, length, take, drop, replicate, put_be, be, ok, err, arith,
}
use tun_go.Base.Table.{find, find_all}
use tun_go.Ip.{Addr, v4, same, same_addr}
use tun_go.Ip.Prefix.{AddrPort, Prefix}
use tun_go.Config.Addressing.{allocate_client_ip, ipv4_subnet}
use tun_go.Server.Peer.{Protocol, Egress, Peer, new_peer_with_auth}
use tun_go.Server.Repository.{Repository, new_repository}
use tun_go.Server.Repository.Tracking.{count}
use tun_go.Server.Repository.Indexed.{IsIndexed, new_repository-IsIndexed}
use tun_go.Server.Registrar.{Authenticated, register}
use tun_go.Server.Registrar.Installed.{IsFresh}
use tun_go.Server.Registrar.Registered.{register_lem}
use tun_go.Server.Udp.{Device, Server}
use tun_go.Server.Udp.Answers.{KeepsRoute}

-- A session is its route id, and a writer and a device what was written to them.
abbrev pub proto : Protocol ℕ
proto = record {
  encrypt = λ s b. (s, ok b);
  decrypt = λ s b. (s, ok (drop 20 b));
  zeroize = λ s. s;
  route_id = λ s. some s;
  has_rekey = λ s. false;
  handle = λ s c b. (s, ok none);
  observe_peer_epoch = λ s e. s;
  activate_send_epoch = λ s e. s;
}

abbrev pub egress : Egress (List Bytes)
egress = record { write = λ w b. (b ∷ w, ok (length b)); close = λ w. w; set_addr_port = λ w a. w }

abbrev pub device : Device (List Bytes)
device = record { write = λ w b. (b ∷ w, ok (length b)) }

pub law : KeepsRoute proto
law = record {
  encrypt = λ s b. refl;
  decrypt = λ s b. refl;
  handle = λ s c b. refl;
  observe = λ s e. refl;
  activate = λ s e. refl;
}

abbrev pub home : AddrPort
home = record { addr = v4 (192 ∷ 0 ∷ 2 ∷ 1 ∷ []); port = 4000 }

abbrev pub key : Bytes
key = 7 ∷ 7 ∷ []

-- 10.0.0.0/24
abbrev pub network : Bytes
network = 10 ∷ 0 ∷ 0 ∷ 0 ∷ []

abbrev pub no_ipv6 : Prefix
no_ipv6 = record { addr = v4 []; bits = none }

abbrev pub client_ip : Addr
client_ip = v4 (10 ∷ 0 ∷ 0 ∷ 2 ∷ [])

abbrev pub who : Authenticated
who = record { client_id = 1; client_pub_key = key; allowed_ips = [] }

abbrev pub blank : ℕ → Peer ℕ (List Bytes)
blank p = new_peer_with_auth p [] client_ip home key [] 5

abbrev pub empty : Repository ℕ (List Bytes)
empty = new_repository blank

pub empty-IsFresh : IsFresh empty 0
unfolding new_repository find find_all
empty-IsFresh = record {
  no_internal = λ a h. cc;
  no_route = λ id h. cc;
  no_allowed = λ a h. cc;
  unlisted = λ k. refl;
}

-- The client under pointer 0, with the session 9.
abbrev pub repository : Repository ℕ (List Bytes)
repository = (register proto egress empty (ipv4_subnet network 24) no_ipv6 who (ok 9) [] home 5 0).0

pub registered :
    (register proto egress empty (ipv4_subnet network 24) no_ipv6 who (ok 9) [] home 5 0).1
    ≡ ok client_ip
unfolding register allocate_client_ip same_addr same put_be be
registered = refl

pub repository-IsIndexed : IsIndexed proto repository
repository-IsIndexed =
    (register_lem proto egress empty (ipv4_subnet network 24) no_ipv6 who 9 [] home 5 0 client_ip
      (new_repository-IsIndexed proto blank) empty-IsFresh registered client_ip).0

abbrev pub server : Server ℕ (List Bytes) (List Bytes)
server = record { peers = repository; tun = []; registrations = [] }

-- From and to the client.
abbrev pub packet : Bytes
packet = 69 ∷ replicate 11 0 ++ (10 ∷ 0 ∷ 0 ∷ 2 ∷ 10 ∷ 0 ∷ 0 ∷ 2 ∷ [])

abbrev pub frame : Bytes
frame = replicate 7 0 ++ (9 ∷ replicate 12 0 ++ packet)
