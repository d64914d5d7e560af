-- ===== src/Transport/Tests.antt =====
-- An adapter that takes at most three bytes at a time, and a frame over it.
use tun_go.Base.{
  ℕ, ◌≡◌, refl, sym, ap, zero, suc, [], ◌∷◌, ◌++◌, Option, none, Bytes, length, take, length-take,
  replicate, put_be, be, Error, ok, err, short_buffer, arith,
}
use tun_go.Transport.Framing.{FramedConn, write_full, write, read, read_full}
use tun_go.Transport.Framing.Writing.{WriterLaws}
use tun_go.Transport.Framing.Delivery.{read-write}

-- Its state is what it has sent.
abbrev slow_write : Bytes → Bytes → Bytes × ℕ × Option Error
slow_write w p = (w ++ take 3 p, length (take 3 p), none)

take_taken : (n : ℕ) (p : Bytes) → take (length (take n p)) p ≡ take n p
take_taken zero p = refl
take_taken (suc n) [] = refl
take_taken (suc n) (x ∷ p) = ap (◌∷◌ x) (take_taken n p)

abbrev slow-WriterLaws : WriterLaws slow_write
slow-WriterLaws = record {
  sent = λ w. w;
  at_most = λ w p. omega (arith, length-take 3 p);
  sends = λ w p. ap (λ (x : Bytes). w ++ x) (sym (take_taken 3 p));
  own_errors = λ w p e q. absurd (cc);
}

abbrev conn : FramedConn Bytes
conn = record {
  adapter = [];
  frame_cap = 100;
  write_header_buffer = replicate 2 0;
  incoming = [];
  read_header_buffer = replicate 2 0;
}

abbrev payload : Bytes
payload = 1 ∷ 2 ∷ 3 ∷ 4 ∷ 5 ∷ []

written : (write slow_write conn payload).1 ≡ ok 5
unfolding write write_full put_be
written = refl

too_small : (read (record conn { incoming = 0 ∷ 5 ∷ payload }) (0 ∷ [])).2 ≡ err short_buffer
unfolding read read_full be
too_small = refl

read-write_example :
    (frame : Bytes) × ((write slow_write conn payload).0.adapter ≡ [] ++ frame)
    × (◌≡◌ {A = ℕ} 5 (length payload))
    × ((read (record conn { incoming = frame ++ (7 ∷ []) }) (replicate 9 0)).2 ≡ ok 5)
    × ((read (record conn { incoming = frame ++ (7 ∷ []) }) (replicate 9 0)).0.incoming ≡ 7 ∷ [])
    × (take 5 (read (record conn { incoming = frame ++ (7 ∷ []) }) (replicate 9 0)).1 ≡ payload)
read-write_example =
    read-write slow_write slow-WriterLaws conn conn payload (7 ∷ []) (replicate 9 0) {n = 5}
      (omega arith) (omega arith) refl (omega arith) written
