-- ===== src/Lib.antt =====
-- TunGo's data plane and control plane, as a library of models and theorems.
--
-- TunGo is a VPN: a client and a server exchange IP packets over UDP, TCP or WebSocket, encrypted
-- with ChaCha20-Poly1305 under keys from a Noise handshake and replaced by rekeying. This library
-- models the code under src/internal that keeps those packets safe and in order.
--
-- How the parts interact. A handshake makes two ciphers. For UDP,
-- src/internal/protocol/chacha20/udp keeps a ring of sessions by epoch; a packet carries a route
-- id and a nonce, whose last two bytes are the epoch, and a session's replay window decides
-- whether the nonce is new. For TCP, src/internal/protocol/chacha20/tcp keeps the sessions of an
-- epoch transition, and both ends count frames in step. The state machine of
-- src/internal/protocol/chacha20/rekey drives either of them through the `EpochManager` interface:
-- it stages an epoch, sends with it once that is confirmed, and retires the one before.
--
-- A server admits a client by the Noise handshake of src/internal/protocol/noise, which under load
-- asks for a cookie first; it assigns the client an address (src/internal/config/addressing),
-- makes a peer of its session and puts it into the repository (src/internal/server/session), where
-- the packet loops of src/internal/server/udp find it by route id or by destination, until it is
-- revoked, reaped or replaced.
--
-- Modules and the code they model:
--   Base        shared names and lemmas: lists, big-endian bytes, copies, results, words
--   Aead        the operations of crypto/cipher.AEAD as a parameter, and their documented laws
--   Core        constants, directions, ZeroBytes and the additional data of a packet
--               (src/internal/protocol/chacha20/internal/core, src/internal/protocol/securemem)
--   Nonce       src/internal/protocol/chacha20/internal/core/nonce.go
--   Window      src/internal/protocol/chacha20/udp/sliding_window.go
--   Udp.Session src/internal/protocol/chacha20/udp/session.go
--   Udp.Ring    src/internal/protocol/chacha20/udp/epoch_ring.go
--   Udp.Crypto  src/internal/protocol/chacha20/udp/crypto.go, wire.go and route_id.go
--   Tcp.Session src/internal/protocol/chacha20/tcp/session.go
--   Tcp.Crypto  src/internal/protocol/chacha20/tcp/crypto.go
--   Rekey.StateMachine  src/internal/protocol/chacha20/rekey/state_machine.go; Rekey.Manager has the
--               laws that it expects of an epoch manager
--   Rekey.Server  src/internal/protocol/rekey/rekey.go and wire_v1.go
--   Rekey.Client  src/internal/protocol/rekey/initiator.go; Rekey.Agreement joins it with Rekey.Server
--   Transport.Framing  src/internal/transport/tcp/framing.go
--   Server.RegistrationQueue  src/internal/server/udp/registration_queue.go and registration_packet.go
--   ServicePacket  src/internal/protocol/servicepacket/header.go
--   Ip          src/internal/protocol/ip/extractor.go; Ip.Version has version.go
--   Ip.Prefix   net/netip's prefixes and address-port pairs, as the code uses them
--   Config.Addressing  src/internal/config/addressing/ipassign.go
--   Noise.Mac, Noise.Cookie, Noise.LoadMonitor  mac.go, cookie.go and load_monitor.go of
--               src/internal/protocol/noise
--   Noise.Handshake, Noise.Responder, Noise.Initiator  src/internal/protocol/noise/ik_handshake.go;
--               Noise.Exchange joins the two sides
--   Noise.Rekey  src/internal/protocol/noise/rekey_v2.go
--   Server.Peer  src/internal/server/session/peer.go and sender.go
--   Server.Repository  src/internal/server/session/repository.go
--   Server.State  src/internal/server/allowed_peers.go and state.go
--   Server.Registrar  src/internal/server/udp/registration.go, and the end of registerClient in
--               src/internal/server/tcp/registration.go
--   Server.Udp  src/internal/server/udp/server.go
--   Established  aead.go, udp/from_handshake.go and tcp/from_handshake.go of
--               src/internal/protocol/chacha20
-- State and operations. A method that mutates its receiver returns the new record beside its
-- result; an error is a value of `Result`. Go's errors are told apart by kind, not by their text.
-- A slice is the list of its bytes, and its capacity is an argument where the code reads it.
-- Machine integers are natural numbers; where Go's would wrap, the wrap is written out or a lemma
-- shows that the value stays in range. A session that the code reaches through a pointer is stored
-- back after each call, and tcp.Crypto, whose three fields share sessions, has a store.
--
-- Bounds. The replay window is sixteen 64-bit words, four windows at most; the ring of epochs
-- holds four; epochs end at 65000 and nonces at 2^80 - 1. These are the constants of the code. No
-- definition runs on fuel but `write_full`, which gets one round for each byte and is shown never
-- to need more; every other loop is a recursion on a list.
--
-- Assumptions. The AEAD is a parameter with the documented behaviour of golang.org/x/crypto: keys
-- of 32 bytes are taken, `Seal` adds 16 bytes, `Open` undoes `Seal`. Nothing is assumed of
-- forgeries. The hash, X25519 and the key deriver are parameters too, X25519 with the law of
-- Diffie-Hellman. Locks make a method one step, and a session is used by one goroutine at a time
-- in each direction, as its callers do.
--
-- Of the Noise library, the hash of the MACs and the sealing of the cookies a theorem assumes what
-- it names: the sizes of sums and sealed bytes, that unsealing undoes sealing, and that the
-- library runs its handshake.
--
-- The server. A `*Peer` is a number into a store, a Go map is a table of pairs without a fixed
-- order, and a clock is an argument. Each method that holds a lock is a step; the packet loops and
-- the reaper are sequences of turns in any order.
--
-- The V2 handshake is a parameter of the rekey coordinators, with Noise.Rekey as its code.
--
-- Not modelled: the TCP server and the client's connection, the sockets and their workers; the
-- configuration, but for the addresses; the TUN devices, the user interface and the statistics.
pub mod Base
pub mod Aead
pub mod Core
pub mod Nonce
pub mod Window
pub mod Udp
pub mod Tcp
pub mod Rekey
pub mod Transport
pub mod Server
pub mod ServicePacket
pub mod Ip
pub mod Config
pub mod Noise
pub mod Established
