-- ===== src/Noise/LoadMonitor.antt =====
-- src/internal/protocol/noise/load_monitor.go: the rate of handshakes. The clock's Unix seconds are
-- an argument, and each method is one step of the atomics that it reads and writes.
use tun_go.Base.{ℕ, zero, suc, ◌+◌, ◌<◌, ◌≤◌, ◌≡◌, Bool, ltb, leb, if◌then◌else◌, arith}

abbrev pub default_load_threshold : ℕ
default_load_threshold = 1000

pub record LoadMonitor : Type 0 where
  pub handshakes_per_second : ℕ
  pub threshold : ℕ
  pub counter : ℕ
  pub last_reset_time : ℕ

-- A threshold that is not positive is replaced.
unfoldable pub new_load_monitor : ℕ → ℕ → LoadMonitor
new_load_monitor now threshold = record {
  handshakes_per_second = 0;
  threshold = if leb threshold 0 then default_load_threshold else threshold;
  counter = 0;
  last_reset_time = now;
}

unfoldable pub record_handshake : ℕ → LoadMonitor → LoadMonitor
record_handshake now lm =
    if ltb lm.last_reset_time now
    then record lm { last_reset_time = now; handshakes_per_second = lm.counter; counter = 1 }
    else record lm { counter = lm.counter + 1 }

unfoldable pub under_load : LoadMonitor → Bool
under_load lm = ltb lm.threshold lm.handshakes_per_second

unfoldable pub set_threshold : ℕ → LoadMonitor → LoadMonitor
set_threshold threshold lm = record lm { threshold = threshold }

-- `n` handshakes within one second.
abbrev pub burst : ℕ → ℕ → LoadMonitor → LoadMonitor
burst zero now lm = lm
burst (suc n) now lm = burst n now (record_handshake now lm)

burst_within :
    (n now : ℕ) (lm : LoadMonitor)
    → now ≤ lm.last_reset_time
    → burst n now lm ≡ record lm { counter = lm.counter + n }
unfolding record_handshake
burst_within zero now lm h = ground arith
burst_within (suc n) now lm h =
    ground (arith, burst_within n now (record lm { counter = lm.counter + 1 }))

-- After a burst of n + 1 handshakes in a second later than the last reset, and one handshake in a
-- later second, the server is under load exactly if n + 1 is above the threshold, and the new count
-- is one.
pub under_load-burst :
    (n now later : ℕ) (lm : LoadMonitor)
    → lm.last_reset_time < now
    → now < later
    → (under_load (record_handshake later (burst (suc n) now lm)) ≡ ltb lm.threshold (suc n))
      × ((record_handshake later (burst (suc n) now lm)).counter ≡ 1)
unfolding under_load record_handshake
under_load-burst n now later lm h k =
    rw (burst_within n now (record_handshake now lm) (ground arith)) (ground arith)
