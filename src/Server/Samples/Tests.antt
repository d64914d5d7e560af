-- ===== src/Server/Samples/Tests.antt =====
-- The client of Samples: its packets, its revocation, its end, and its registration.
use tun_go.Base.{
  ℕ, ◌≤◌, ◌≡◌, ◌⊎◌, ◌↔◌, refl, List, [], ◌∷◌, true, false, none, some, All, Bytes, length, ok, err,
  put_be, be, Result, if◌then◌else◌, arith, not_found,
}
use tun_go.Base.Table.{find, put}
use tun_go.Ip.{Addr, same, same_addr, unmap}
use tun_go.Ip.Prefix.{addr_eq, same_addr_port}
use tun_go.Config.Addressing.{allocate_client_ip, ipv4_subnet}
use tun_go.Server.Peer.{is_source_allowed, new_peer_with_auth}
use tun_go.Server.Repository.{
  Repository, find_by_destination_ip, get_by_internal_addr_port, terminate_by_pub_key,
  delete_locked, reap_idle, is_idle, add, modify, new_repository,
}
use tun_go.Server.Repository.Indexed.{IsListed, IsIndexed, new_repository-IsIndexed}
use tun_go.Server.Repository.Lookups.{find_by_destination_ip-Allowed}
use tun_go.Server.Repository.Revocation.{IsGone, IsRevoked, delete-IsGone, terminate-IsRevoked}
use tun_go.Server.Repository.Reaping.{reap_idle_iff}
use tun_go.Server.Repository.Updates.{replaced_lost}
use tun_go.Server.State.{
  AllowedPeers, update_peers, lookup_peer, update_server, revoke_by_pub_key, revocation_complete,
}
use tun_go.Server.State
use tun_go.Server.Registrar.{addr_port_eq, enqueue_packet, max_concurrent_registrations, register}
use tun_go.Server.Registrar.Bounded.{served, enqueue_packet_lem}
use tun_go.Server.Registrar.Registered.{register_lem}
use tun_go.Server.Udp.{handle_datagram, tun_turn, peer_at}
use tun_go.Server.Udp.Ingress.{IsForwarded, handle_datagram-IsForwarded}
use tun_go.Server.Udp.Outgoing.{IsAddressee, tun_turn-IsAddressee}
use tun_go.Server.Udp.Indexed.{Turn, datagram, packet, reap, run_turns, run_turns-IsIndexed}
use tun_go.Server.Samples.{
  proto, egress, device, law, home, key, network, no_ipv6, client_ip, who, blank, empty,
  empty-IsFresh, registered, repository, repository-IsIndexed, server, frame,
}
use tun_go.Server.Samples

handle_datagram-IsForwarded_example :
    ((handle_datagram proto egress device server 6 home frame).0.tun ≡ [])
    ⊎ IsForwarded proto egress device server frame
        (handle_datagram proto egress device server 6 home frame).0.tun
handle_datagram-IsForwarded_example =
    handle_datagram-IsForwarded proto egress device server 6 home frame

tun_turn-IsAddressee_example :
    ((tun_turn proto egress device server Samples.packet).tun ≡ [])
    × ((peer_at (tun_turn proto egress device server Samples.packet) 0 ≡ peer_at server 0)
        ⊎ IsAddressee proto egress device server Samples.packet 0)
tun_turn-IsAddressee_example =
    tun_turn-IsAddressee proto egress device server Samples.packet 0 repository-IsIndexed

abbrev turns : List Turn
turns = datagram 6 home frame ∷ packet Samples.packet ∷ reap 90 1 ∷ []

run_turns-IsIndexed_example : IsIndexed proto (run_turns proto egress device server turns).peers
run_turns-IsIndexed_example =
    run_turns-IsIndexed proto egress device law server turns repository-IsIndexed

found : find_by_destination_ip repository client_ip ≡ ok 0
unfolding find_by_destination_ip register find allocate_client_ip same_addr same put_be be add put
    unmap modify new_peer_with_auth
found = refl

find_by_destination_ip-Allowed_example :
    IsListed repository 0 × (is_source_allowed (repository.heap 0) client_ip ≡ true)
find_by_destination_ip-Allowed_example =
    find_by_destination_ip-Allowed proto repository repository-IsIndexed client_ip 0 found

delete-IsGone_example : IsGone proto egress (delete_locked proto egress repository 0) 0
delete-IsGone_example = delete-IsGone proto egress repository 0 repository-IsIndexed

terminate-IsRevoked_example : IsRevoked (terminate_by_pub_key proto egress repository key).0 key
terminate-IsRevoked_example =
    terminate-IsRevoked proto egress repository key repository-IsIndexed (omega arith)

reap_idle_iff_example :
    (find client_ip (reap_idle proto egress 90 1 repository).0.internal_ip_to_peer ≡ some 0) ↔ (
      (find client_ip repository.internal_ip_to_peer ≡ some 0)
      × (is_idle 90 1 (repository.heap 0) ≡ false))
reap_idle_iff_example = reap_idle_iff proto egress 90 1 repository client_ip 0 repository-IsIndexed

abbrev state : State.Server ℕ (List Bytes)
state = record { allowed_peers = some []; repositories = repository ∷ [] }

revocation_complete_example :
    ((update_server state []).allowed_peers ≡ some (update_peers []))
    × (lookup_peer (update_peers []) key ≡ none)
    × All
        (λ r. IsIndexed proto r × IsRevoked r key)
        (revoke_by_pub_key proto egress (update_server state []) key).0.repositories
revocation_complete_example =
    revocation_complete proto egress state [] key [] refl (omega arith) tt
      (repository-IsIndexed, tt)

live : (p : ℕ) → (empty.heap p).closed ≡ false
unfolding new_peer_with_auth new_repository
live p = refl

shared : unmap (empty.heap 0).internal_ip ≡ unmap (empty.heap 1).internal_ip
unfolding new_peer_with_auth new_repository
shared = refl

replaced_lost_example :
    (get_by_internal_addr_port
        (delete_locked proto egress (add proto (add proto empty 0) 1) 0)
        (empty.heap 1).internal_ip
      ≡ err not_found)
    × (((delete_locked proto egress (add proto (add proto empty 0) 1) 0).heap 1).closed ≡ false)
replaced_lost_example =
    replaced_lost proto egress empty 0 1 (λ e. omega (arith, e)) (live 0) (live 1) shared

enqueue_packet_lem_example :
    (length (enqueue_packet [] home frame).0 ≤ max_concurrent_registrations)
    × (find home (enqueue_packet [] home frame).0
        ≡ (if same_addr_port home home then served [] home frame else none))
unfolding find
enqueue_packet_lem_example = enqueue_packet_lem [] home frame home (omega arith)

abbrev registration : Repository ℕ (List Bytes) × Result Addr
registration = register proto egress empty (ipv4_subnet network 24) no_ipv6 who (ok 9) [] home 5 0

register_lem_example :
    IsIndexed proto registration.0
    × (get_by_internal_addr_port registration.0 client_ip ≡ (
        if same_addr (unmap client_ip) (unmap client_ip)
        then ok 0
        else get_by_internal_addr_port empty client_ip))
    × ((get_by_internal_addr_port empty client_ip ≡ err not_found)
        ⊎ ((q : ℕ) × (get_by_internal_addr_port empty client_ip ≡ ok q)
            × ((registration.0.heap q).closed ≡ true)))
register_lem_example =
    register_lem proto egress empty (ipv4_subnet network 24) no_ipv6 who 9 [] home 5 0 client_ip
      (new_repository-IsIndexed proto blank) empty-IsFresh registered client_ip
