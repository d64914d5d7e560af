-- ===== src/Transport/Framing.antt =====
-- src/internal/transport/tcp/framing.go. The adapter is a parameter: its `Write` is a function on a
-- state `W`, and what its `Read` will still deliver before the end of the stream is a list of bytes,
-- which `bufio.Reader` and `io.ReadFull` hand out in order. The write lock makes `Write` one step.
pub mod Writing
pub mod Delivery
use tun_go.Base.{
  ℕ, zero, suc, ◌%◌, ◌^◌, ◌-◌, List, [], ◌∷◌, Option, none, some, ltb, ◌==◌, if◌then◌else◌, Bytes,
  length, take, drop, replicate, put_be, be, copy_at, Result, Error, ok, err, short_buffer,
  short_write, invalid_length_prefix, zero_length_frame, frame_cap_exceeded, eof, bad_frame_cap,
  no_adapter, out_of_fuel,
}

pub record FramedConn (W : Type 0) : Type 0 where
  pub adapter : W
  pub frame_cap : ℕ
  pub write_header_buffer : Bytes  -- [2]byte
  pub incoming : Bytes  -- what `bufReader` still delivers
  pub read_header_buffer : Bytes  -- [2]byte

-- `io.ReadFull` of a buffer: what it holds then, what is left of the stream, and the error.
unfoldable pub read_full : Bytes → Bytes → Bytes × Bytes × Option Error
read_full buffer stream =
    if ltb (length stream) (length buffer)
    then (copy_at 0 stream buffer, [], some eof)
    else (take (length buffer) stream, drop (length buffer) stream, none)

-- A negative cap is refused like 0.
unfoldable pub new_framed_conn : {W : Type 0} → Option W → ℕ → Bytes → Result (FramedConn W)
new_framed_conn none frame_cap incoming = err no_adapter
new_framed_conn (some adapter) frame_cap incoming =
    if frame_cap == 0
    then err bad_frame_cap
    else if ltb (2 ^ 16 - 1) frame_cap
    then err bad_frame_cap
    else ok record {
      adapter = adapter;
      frame_cap = frame_cap;
      write_header_buffer = replicate 2 0;
      incoming = incoming;
      read_header_buffer = replicate 2 0;
    }

module _ {W : Type 0} (write_adapter : W → Bytes → W × ℕ × Option Error) where
  -- The loop, on fuel; `write` gives it one round for each byte.
  unfoldable pub write_full : ℕ → W → Bytes → W × Option Error
  write_full fuel w [] = (w, none)
  write_full zero w (b ∷ p) = (w, some out_of_fuel)
  write_full (suc fuel) w (b ∷ p) =
      let (w', n, failed) = write_adapter w (b ∷ p) in
      let rest = write_full fuel w' (drop n (b ∷ p)) in
      elim failed [ some e ↦ (w', some e) | none ↦ if n == 0 then (w', some short_write) else rest ]

  unfoldable pub write : FramedConn W → Bytes → FramedConn W × Result ℕ
  write a payload =
      if length payload == 0
      then (a, err zero_length_frame)
      else if ltb a.frame_cap (length payload)
      then (a, err frame_cap_exceeded)
      else (let header = put_be 2 (length payload % 2 ^ 16) in
          let (w, failed) = write_full 2 a.adapter header in
          elim failed [
            | some e ↦ (record a { adapter = w; write_header_buffer = header }, err e)
            | none ↦
                let (w', failed') = write_full (length payload) w payload in
                elim failed' [
                  | some e ↦ (record a { adapter = w'; write_header_buffer = header }, err e)
                  | none ↦
                      (record a { adapter = w'; write_header_buffer = header }, ok (length payload))
                ]
          ])

module _ {W : Type 0} where
  -- The payload of `n` bytes into the front of the buffer.
  unfoldable pub read_payload : FramedConn W → ℕ → Bytes → FramedConn W × Bytes × Result ℕ
  read_payload a n buffer =
      let (got, rest, failed) = read_full (take n buffer) a.incoming in
      elim failed [
        | some e ↦ (record a { incoming = rest }, copy_at 0 got buffer, err e)
        | none ↦ (record a { incoming = rest }, copy_at 0 got buffer, ok n)
      ]

  -- The connection, the buffer and the result after `Read`.
  unfoldable pub read : FramedConn W → Bytes → FramedConn W × Bytes × Result ℕ
  read a buffer =
      let (header, rest, failed) = read_full a.read_header_buffer a.incoming in
      let a' = record a { incoming = rest; read_header_buffer = header } in
      elim failed [
        | some e ↦ (a', buffer, err invalid_length_prefix)
        | none ↦
            if be header == 0
            then (a', buffer, err zero_length_frame)
            else if ltb a.frame_cap (be header)
            then (a', buffer, err frame_cap_exceeded)
            else if ltb (length buffer) (be header)
            then (a', buffer, err short_buffer)
            else read_payload a' (be header) buffer
      ]
