-- ===== src/Window.antt =====
-- src/internal/protocol/chacha20/udp/sliding_window.go: the replay window of a UDP session.
-- A bitmap is the list of its sixteen 64-bit words; bit `d` stands for the nonce `max - d`.
pub mod Words
pub mod Shift
pub mod Replay
pub mod Table
pub mod Run
mod Tests
use tun_go.Base.{
  ℕ, zero, suc, ◌+◌, ◌-◌, ◌*◌, ◌/◌, ◌%◌, ◌^◌, List, [], ◌∷◌, ◌++◌, Bool, not, Option, none, some,
  ltb, leb, ◌==◌, if◌then◌else◌, length, get_or, set, take, drop, replicate, bit_and, bit_or,
  Result, ok, err, non_unique_nonce, map,
}

abbrev pub sliding_window_words : ℕ
sliding_window_words = 16

abbrev pub sliding_window_cap : ℕ
sliding_window_cap = 4

-- The number of nonces that a window remembers, `slidingWindowWords*64`.
abbrev pub window_bits : ℕ
window_bits = 1024

pub record SlidingWindowEntry : Type 0 where
  pub max : ℕ  -- uint64
  pub bitmap : List ℕ  -- [16]uint64
  pub high : ℕ  -- uint16

pub record SlidingWindow : Type 0 where
  pub wins : List SlidingWindowEntry

unfoldable pub new_sliding_window : SlidingWindow
new_sliding_window = record { wins = [] }

-- The loop over `s.wins`: the first entry for `high`.
unfoldable pub find_win : ℕ → List SlidingWindowEntry → Option SlidingWindowEntry
find_win high [] = none
find_win high (w ∷ ws) = if w.high == high then some w else find_win high ws

-- `uint64` shifts
abbrev pub shl64 : ℕ → ℕ → ℕ
shl64 w s = w * 2 ^ s % 2 ^ 64

abbrev pub shr64 : ℕ → ℕ → ℕ
shr64 w s = w / 2 ^ s

-- `for i := 0; i < wordShift; i++ { b[i] = 0 }`, with `rounds` left at `i`.
unfoldable pub zero_words : ℕ → ℕ → List ℕ → List ℕ
zero_words i zero b = b
zero_words i (suc rounds) b = zero_words (i + 1) rounds (set b i 0)

-- `for i := 15; i > 0; i-- { b[i] = b[i]<<s | b[i-1]>>(64-s) }; b[0] <<= s`
unfoldable pub shift_words : ℕ → ℕ → List ℕ → List ℕ
shift_words s zero b = set b 0 (shl64 (get_or b 0 0) s)
shift_words s (suc i) b =
    shift_words s i
      (set b (suc i) (bit_or (shl64 (get_or b (suc i) 0) s) (shr64 (get_or b i 0) (64 - s))))

-- `copy(b[wordShift:], b[:16-wordShift])` moves as if by a buffer, then the front is cleared.
unfoldable pub move_words : ℕ → List ℕ → List ℕ
unfolding zero_words
move_words n b =
    if ltb 0 n then zero_words 0 n (take n b ++ take (sliding_window_words - n) b) else b

unfoldable pub shift_bitmap : List ℕ → ℕ → List ℕ
unfolding shift_words move_words
shift_bitmap b n =
    if leb window_bits n
    then replicate sliding_window_words 0
    else (let moved = move_words (n / 64) b in
        if ltb 0 (n % 64) then shift_words (n % 64) (sliding_window_words - 1) moved else moved)

-- The `switch` of `Check`; `nil` is `ok`.
unfoldable pub check_win : SlidingWindowEntry → ℕ → Result (Unit {0})
check_win w low =
    if ltb w.max low
    then ok tt
    else if leb window_bits (w.max - low)
    then err non_unique_nonce
    else (let diff = w.max - low in
        if not (bit_and (get_or w.bitmap (diff / 64) 0) (2 ^ (diff % 64)) == 0)
        then err non_unique_nonce
        else ok tt)

unfoldable pub check : SlidingWindow → ℕ → ℕ → Result (Unit {0})
check s low high = elim (find_win high s.wins) [ none ↦ ok tt | some w ↦ check_win w low ]

-- The `switch` of `Accept`, on the window that was found or appended.
unfoldable pub accept_win : SlidingWindowEntry → ℕ → SlidingWindowEntry
accept_win w low =
    let shifted = shift_bitmap w.bitmap (low - w.max) in
    let diff = w.max - low in
    if ltb w.max low
    then record w { bitmap = set shifted 0 (bit_or (get_or shifted 0 0) 1); max = low }
    else if ltb diff window_bits
    then record w {
      bitmap = set w.bitmap (diff / 64) (bit_or (get_or w.bitmap (diff / 64) 0) (2 ^ (diff % 64)));
    }
    else w

-- `w = &s.wins[i]`: the first entry for `high` is changed in place.
unfoldable pub accept_in : ℕ → ℕ → List SlidingWindowEntry → List SlidingWindowEntry
accept_in low high [] = []
accept_in low high (w ∷ ws) =
    if w.high == high then accept_win w low ∷ ws else w ∷ accept_in low high ws

abbrev pub fresh_win : ℕ → SlidingWindowEntry
fresh_win high = record { max = 0; bitmap = replicate sliding_window_words 0; high = high }

unfoldable pub evict : List SlidingWindowEntry → List SlidingWindowEntry
evict ws = if length ws == sliding_window_cap then drop 1 ws else ws

unfoldable pub accept : SlidingWindow → ℕ → ℕ → SlidingWindow
accept s low high = elim (find_win high s.wins) [
  | none ↦ record s { wins = evict s.wins ++ (accept_win (fresh_win high) low ∷ []) }
  | some w ↦ record s { wins = accept_in low high s.wins }
]

-- The cleared backing array, and the window without it.
unfoldable pub zeroize : SlidingWindow → List SlidingWindowEntry × SlidingWindow
zeroize s = (map (λ w. fresh_win 0) s.wins, record s { wins = [] })
