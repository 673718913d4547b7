-- ===== src/Cmd/Loadgen/Pace.antt =====
-- The interval at which the tickers of the load generator are set.
use native.Mathlib.Nat.{div-mul-le_self, lt-div-mul-add, mul-le-mul_right, mul-lt-mul_of_pos_left}
use distributed_logs_aggrega.Base.{ℕ, ◌+◌, ◌*◌, ◌/◌, ◌^◌, ◌≤◌, ◌<◌, ◌≡◌, arith}
use distributed_logs_aggrega.Base.Int.{pos, ◌*ℤ◌, quotient}
use distributed_logs_aggrega.Base.Outcome.{returns}
use distributed_logs_aggrega.Config.{second}
use distributed_logs_aggrega.Cmd.Loadgen.{rate_of, interval_of}

rate_of-pos :
    (rps batch : ℕ)
    → 0 < rps
    → second / rps * batch < 2 ^ 63
    → 1000 ≤ second / rps * batch
    → rate_of (pos rps) (pos batch) ≡ returns (pos (second / rps * batch))
unfolding rate_of quotient ◌*ℤ◌
rate_of-pos rps batch p b l = ground (arith, p, b, l)

interval_of-pos :
    (rate workers : ℕ)
    → 0 < rate * workers
    → rate * workers < 2 ^ 63
    → interval_of (pos rate) (pos workers) ≡ returns (pos (rate * workers))
unfolding interval_of ◌*ℤ◌
interval_of-pos rate workers p b = ground (arith, p, b)

-- The interval of the workers' tickers. `batch` events at each tick of each of the workers are at least
-- `rps` events a second, and fewer with one nanosecond more for each event.
pub record Paced (rps batch workers : ℕ) : Type 0 where
  pub rate : ℕ
  pub interval : ℕ
  pub rated : rate_of (pos rps) (pos batch) ≡ returns (pos rate)
  pub ticking : interval_of (pos rate) (pos workers) ≡ returns (pos interval)
  pub fast : interval * rps ≤ second * (batch * workers)
  pub tight : second * (batch * workers) < (interval + batch * workers) * rps

events_fast :
    (q rps batch workers : ℕ)
    → q * rps ≤ second
    → q * batch * workers * rps ≤ second * (batch * workers)
events_fast q rps batch workers h = omega (arith, mul-le-mul_right (batch * workers) h)

events_tight :
    (q rps batch workers : ℕ)
    → second < q * rps + rps
    → 0 < batch * workers
    → second * (batch * workers) < (q * batch * workers + batch * workers) * rps
events_tight q rps batch workers h p = omega (arith, mul-lt-mul_of_pos_left h p)

-- With positive settings, and unless a product overflows or the rate is below a microsecond, the
-- tickers are set to an interval at which a request of `batch` events from each worker makes at least
-- `rps` events a second, and which would be too long with a nanosecond more for each event: the flag
-- sets the pace of events, not of requests. Ticks that are lost while a worker waits for its answer
-- are not part of this.
pub rate_of-Paced :
    (rps batch workers : ℕ)
    → 0 < rps
    → 0 < batch
    → 0 < workers
    → 1000 ≤ second / rps * batch
    → second / rps * batch * workers < 2 ^ 63
    → Paced rps batch workers
rate_of-Paced rps batch workers p b w slow fits = record {
  rate = second / rps * batch;
  interval = second / rps * batch * workers;
  rated = rate_of-pos rps batch p (omega (arith, below, fits)) slow;
  ticking = interval_of-pos _ workers (omega (arith, below, slow)) fits;
  fast = events_fast (second / rps) rps batch workers (div-mul-le_self second rps);
  tight =
      events_tight (second / rps) rps batch workers (lt-div-mul-add p)
        (omega (arith, mul-lt-mul_of_pos_left {m = 0} w b));
}
  where
    below : second / rps * batch ≤ second / rps * batch * workers
    below = omega (arith, mul-le-mul_right (second / rps * batch) w)
