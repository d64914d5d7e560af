-- ===== src/Server/Udp/Outgoing.antt =====
-- Where a packet of the TUN device goes (`runTun` of udp/server.go): through no peer but one that may
-- send from the packet's destination.
use tun_go.Base.{
  ℕ, ◌≡◌, ◌≢◌, ◌∙◌, ◌⊎◌, inl, inr, refl, ap, sym, ◌++◌, true, some, Bytes, replicate, arith,
  ℕ_discrete, ==_ne, Result, ok, err,
}
use tun_go.Base.Branches.{Result_all, Option_all}
use tun_go.Ip.{Addr, extract_dest_ip}
use tun_go.Server.Peer.{Protocol, Egress, is_source_allowed}
use tun_go.Server.Repository.{Repository, modify, find_by_destination_ip, delete_locked, take_out}
use tun_go.Server.Repository.Indexed.{IsListed, IsIndexed}
use tun_go.Server.Repository.Lookups.{find_by_destination_ip-Allowed}
use tun_go.Server.Udp.{Device, Server, put_peer, peer_at, send_to, tun_turn, payload_offset}

module _ {S W D : Type 0} (proto : Protocol S) (egress : Egress W) (dev : Device D) where
  heap-delete_ne :
      (r : Repository S W) (p q : ℕ) → q ≢ p → (delete_locked proto egress r p).heap q ≡ r.heap q
  unfolding delete_locked take_out
  heap-delete_ne r p q ne = ground (arith, ==_ne p q (λ e. ne (sym e)))

  heap-send_to_ne :
      (s : Server S W D) (p q : ℕ) (b : Bytes)
      → q ≢ p
      → peer_at (send_to proto egress s p b).0 q ≡ peer_at s q
  unfolding send_to put_peer modify
  heap-send_to_ne s p q b ne = ground (arith, ==_ne p q (λ e. ne (sym e)))

  tun-send_to : (s : Server S W D) (p : ℕ) (b : Bytes) → (send_to proto egress s p b).0.tun ≡ s.tun
  unfolding send_to put_peer
  tun-send_to s p b = refl

  -- The one that a turn may change.
  pub record IsAddressee (s : Server S W D) (b : Bytes) (q : ℕ) : Type 0 where
    pub destination : Addr
    pub addressed : extract_dest_ip b ≡ some destination
    pub found : find_by_destination_ip s.peers destination ≡ ok q
    pub listed : IsListed s.peers q
    pub allowed : is_source_allowed (peer_at s q) destination ≡ true

  -- If the repository is in its invariant, then a packet of the TUN device changes no peer but the
  -- one that the lookup of its destination finds, which is open and may send from that destination,
  -- and writes nothing back to the device.
  pub tun_turn-IsAddressee :
      (s : Server S W D) (b : Bytes) (q : ℕ)
      → IsIndexed proto s.peers
      → ((tun_turn proto egress dev s b).tun ≡ s.tun)
        × ((peer_at (tun_turn proto egress dev s b) q ≡ peer_at s q) ⊎ IsAddressee s b q)
  unfolding tun_turn
  tun_turn-IsAddressee s b q v =
      Option_all P (extract_dest_ip b) _ _ (refl, inl refl)
        (λ a here. Result_found a here (find_by_destination_ip s.peers a) refl)
    where
      P : Server S W D → Type 0
      P t = (t.tun ≡ s.tun) × ((peer_at t q ≡ peer_at s q) ⊎ IsAddressee s b q)

      frame : Bytes
      frame = replicate payload_offset 0 ++ b

      addressee :
          (a : Addr)
          → extract_dest_ip b ≡ some a
          → (p : ℕ) → find_by_destination_ip s.peers a ≡ ok p
          → q ≡ p
          → IsAddressee s b q
      addressee a here p h e =
          let own : find_by_destination_ip s.peers a ≡ ok q = h ∙ ap ok (sym e) in
          let (listed, allowed) = find_by_destination_ip-Allowed proto s.peers v a q own in
          record {
            destination = a;
            addressed = here;
            found = own;
            listed = listed;
            allowed = allowed;
          }

      Result_found :
          (a : Addr)
          → extract_dest_ip b ≡ some a
          → (r : Result ℕ) → find_by_destination_ip s.peers a ≡ r
          → P (elim r [
            | err e ↦ s
            | ok p ↦
                (let w = send_to proto egress s p frame in
                  elim w.1 [
                    | ok n ↦ w.0
                    | err e ↦ record w.0 { peers = delete_locked proto egress w.0.peers p }
                  ])
          ])
      Result_found a here (err e) h = (refl, inl refl)
      Result_found a here (ok p) h = elim (ℕ_discrete q p) [
        | yes e ↦
            Result_all P (send_to proto egress s p frame).1 _ _
              (λ x. (tun-send_to s p frame, inr (addressee a here p h e)))
              (λ n. (tun-send_to s p frame, inr (addressee a here p h e)))
        | no ne ↦
            Result_all P (send_to proto egress s p frame).1 _ _
              (λ x. (
                tun-send_to s p frame,
                inl (
                    heap-delete_ne (send_to proto egress s p frame).0.peers p q ne
                    ∙ heap-send_to_ne s p q frame ne),
              ))
              (λ n. (tun-send_to s p frame, inl (heap-send_to_ne s p q frame ne)))
      ]
