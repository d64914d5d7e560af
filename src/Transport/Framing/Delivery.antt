-- ===== src/Transport/Framing/Delivery.antt =====
-- What is written in frames is read back, whatever pieces the adapter takes it in.
use tun_go.Base.{
  ℕ, ◌^◌, ◌≤◌, ◌<◌, ◌≡◌, refl, sym, ap, ◌∙◌, ◌++◌, Option, none, false, ltb, Bytes, length,
  length-take, length-append, take, put_be, be, be-put_be, length-put_be, copy_at, take_copied,
  take-append_of_length, drop-append_of_length, Result, Error, ok, arith,
}
use tun_go.Transport.Framing.{FramedConn, read_full, write, read, read_payload}
use tun_go.Transport.Framing.Writing.{append_assoc, WriterLaws, write-sends}

read_full-enough :
    (buffer p rest : Bytes)
    → length buffer ≡ length p
    → (read_full buffer (p ++ rest)).0 ≡ p
      × ((read_full buffer (p ++ rest)).1 ≡ rest)
      × ((read_full buffer (p ++ rest)).2 ≡ none)
unfolding read_full
read_full-enough buffer p rest e =
    let long : ltb (length (p ++ rest)) (length buffer) ≡ false =
      ground (arith, length-append p rest) in
    rw
      (
        long,
        e,
        take-append_of_length (length p) p rest refl,
        drop-append_of_length (length p) p rest refl,
      )
      (refl, refl, refl)

module _ {W : Type 0} where
  read_head :
      (b : FramedConn W) (header rest buffer : Bytes) (n : ℕ)
      → (read_full b.read_header_buffer b.incoming).0 ≡ header
      → (read_full b.read_header_buffer b.incoming).1 ≡ rest
      → (read_full b.read_header_buffer b.incoming).2 ≡ none
      → be header ≡ n
      → 1 ≤ n
      → n ≤ b.frame_cap
      → n ≤ length buffer
      → read b buffer
        ≡ read_payload (record b { incoming = rest; read_header_buffer = header }) n buffer
  unfolding read
  read_head b header rest buffer n e f g v some_byte below room =
      rw (g, read, e, f, v) (ground arith)

  read_body :
      (b : FramedConn W) (p rest buffer : Bytes)
      → length p ≤ length buffer
      → b.incoming ≡ p ++ rest
      → read_payload b (length p) buffer
        ≡ (record b { incoming = rest }, copy_at 0 p buffer, ok (length p))
  unfolding read_payload
  read_body b p rest buffer room e =
      let (got, left, fine) =
        read_full-enough (take (length p) buffer) p rest
          (omega (arith, length-take (length p) buffer)) in
      let got' : (read_full (take (length p) buffer) b.incoming).0 ≡ p = rw e got in
      let left' : (read_full (take (length p) buffer) b.incoming).1 ≡ rest = rw e left in
      let fine' : (read_full (take (length p) buffer) b.incoming).2 ≡ none = rw e fine in
      rw (fine', read_payload, got', left') refl

  -- A whole frame that fits is read, and no byte more.
  read-frame :
      (b : FramedConn W) (p rest buffer : Bytes)
      → length b.read_header_buffer ≡ 2
      → 1 ≤ length p
      → length p ≤ b.frame_cap
      → length p < 2 ^ 16
      → length p ≤ length buffer
      → b.incoming ≡ put_be 2 (length p) ++ (p ++ rest)
      → read b buffer ≡ (
        record b { incoming = rest; read_header_buffer = put_be 2 (length p) },
        copy_at 0 p buffer,
        ok (length p),
      )
  read-frame b p rest buffer two some_byte below fits room e =
      let header : Bytes = put_be 2 (length p) in
      let (got, left, fine) =
        read_full-enough b.read_header_buffer header (p ++ rest)
          (omega (arith, length-put_be 2 (length p))) in
      read_head b header (p ++ rest) buffer (length p) (rw e got) (rw e left) (rw e fine)
        (be-put_be 2 (length p) fits) some_byte below room
      ∙ read_body (record b { incoming = p ++ rest; read_header_buffer = header }) p rest buffer
          room refl

module _ {W : Type 0} (write_adapter : W → Bytes → W × ℕ × Option Error)
    (laws : WriterLaws write_adapter) where
  -- Over an adapter that sends a prefix of what it is given, in pieces of any size: if Write
  -- returns without error on a connection whose cap fits in 16 bits, then it returned the length
  -- of the payload, and it sent a frame such that a connection with at least that cap, on whose
  -- stream the frame comes next, reads just that payload into a buffer with room for it, and
  -- leaves the stream behind the frame.
  pub read-write :
      (a b : FramedConn W) (payload rest buffer : Bytes) {n : ℕ}
      → a.frame_cap < 2 ^ 16
      → a.frame_cap ≤ b.frame_cap
      → length b.read_header_buffer ≡ 2
      → length payload ≤ length buffer
      → (write write_adapter a payload).1 ≡ ok n
      → (frame : Bytes) × (laws.sent (write write_adapter a payload).0.adapter
          ≡ laws.sent a.adapter ++ frame)
        × (n ≡ length payload)
        × ((read (record b { incoming = frame ++ rest }) buffer).2 ≡ ok n)
        × ((read (record b { incoming = frame ++ rest }) buffer).0.incoming ≡ rest)
        × (take n (read (record b { incoming = frame ++ rest }) buffer).1 ≡ payload)
  read-write a b payload rest buffer {n} fits wider two room e =
      let (own, some_byte, below, sent) = write-sends write_adapter laws a payload {n = n} fits e in
      let framed : Bytes = put_be 2 (length payload) ++ payload in
      let whole : read (record b { incoming = framed ++ rest }) buffer ≡ (
        record b { incoming = rest; read_header_buffer = put_be 2 (length payload) },
        copy_at 0 payload buffer,
        ok (length payload),
      ) =
        read-frame (record b { incoming = framed ++ rest }) payload rest buffer two some_byte
          (omega arith) (omega arith) room
          (append_assoc (put_be 2 (length payload)) payload rest) in
      (
        framed,
        sent,
        own,
        ap (λ (x : FramedConn W × Bytes × Result ℕ). x.2) whole ∙ ap (λ (k : ℕ). ok k) (sym own),
        ap (λ (x : FramedConn W × Bytes × Result ℕ). x.0.incoming) whole,
        ap (λ (x : FramedConn W × Bytes × Result ℕ). take n x.1) whole
            ∙ (ap (λ (k : ℕ). take k (copy_at 0 payload buffer)) own
                ∙ take_copied payload buffer room),
      )
