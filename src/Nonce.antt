-- ===== src/Nonce.antt =====
-- src/internal/protocol/chacha20/internal/core/nonce.go: the epoch-suffixed packet counter.
-- A method that mutates `*Nonce` returns the new record.
pub mod Counter
mod Tests
use tun_go.Base.{
  ℕ, ◌+◌, ◌^◌, ◌-◌, ◌<◌, ◌++◌, ◌&&◌, ◌==◌, if◌then◌else◌, Bytes, put_be, drop, Result, ok, err,
  nonce_overflow,
}

pub record Nonce : Type 0 where
  pub epoch : ℕ  -- uint16
  pub counter_low : ℕ  -- uint64
  pub counter_high : ℕ  -- uint16

abbrev pub max_uint16 : ℕ
max_uint16 = 2 ^ 16 - 1

abbrev pub max_uint64 : ℕ
max_uint64 = 2 ^ 64 - 1

unfoldable pub new_nonce : ℕ → Nonce
new_nonce epoch = record { epoch = epoch; counter_low = 0; counter_high = 0 }

-- `CounterHigh++` and `CounterLow++` run only below the largest value of their type.
unfoldable pub increment : Nonce → Result Nonce
increment n =
    if n.counter_high == max_uint16 && n.counter_low == max_uint64
    then err nonce_overflow
    else if n.counter_low == max_uint64
    then ok (record n { counter_high = n.counter_high + 1; counter_low = 0 })
    else ok (record n { counter_low = n.counter_low + 1 })

-- Writes the 12 bytes of the nonce over the front of the buffer (a shorter one is a panic, and
-- every caller passes 12 bytes).
unfoldable pub encode : Nonce → Bytes → Bytes
encode n buffer =
    put_be 8 n.counter_low ++ (put_be 2 n.counter_high ++ (put_be 2 n.epoch ++ drop 12 buffer))

unfoldable pub peek_encode : Nonce → Bytes → Result Bytes
peek_encode n buf =
    if n.counter_high == max_uint16 && n.counter_low == max_uint64
    then err nonce_overflow
    else if n.counter_low == max_uint64
    then ok (put_be 8 0 ++ (put_be 2 (n.counter_high + 1) ++ (put_be 2 n.epoch ++ drop 12 buf)))
    else ok (
        put_be 8 (n.counter_low + 1)
        ++ (put_be 2 n.counter_high ++ (put_be 2 n.epoch ++ drop 12 buf)))

unfoldable pub zeroize : Nonce → Nonce
zeroize n = record n { epoch = 0; counter_low = 0; counter_high = 0 }

-- The fields fit their Go types.
pub record IsNonce (n : Nonce) : Type 0 where
  pub epoch_fits : n.epoch < 2 ^ 16
  pub low_fits : n.counter_low < 2 ^ 64
  pub high_fits : n.counter_high < 2 ^ 16
