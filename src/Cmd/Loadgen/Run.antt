-- ===== src/Cmd/Loadgen/Run.antt =====
-- `main` of cmd/loadgen/main.go while its workers run, as steps of the workers and of main's loop.
-- `requests` and `answers` are what was posted and what the client returned, the latest first. The
-- durations and the throughput of the reports, which are of float64, are left out.
use distributed_logs_aggrega.Base.{
  ℕ, suc, ◌≡◌, Bool, true, false, List, [], ◌∷◌, length, if◌then◌else◌, ◌<◌,
}
use distributed_logs_aggrega.Base.Int.{ℤ, pos, pos_part, leb_ℤ}
use distributed_logs_aggrega.Base.Outcome.{Outcome, returns, panics}
use distributed_logs_aggrega.Models.{LogEvent, is_zero}
use distributed_logs_aggrega.Cmd.Loadgen.{
  Draw, services, levels, messages, Posted, Counters, zeros, rate_of, interval_of, make_events,
  count_sent, count_posted,
}

-- The flags that decide the load.
pub record Settings : Type 0 where
  pub rps : ℤ
  pub batch : ℤ
  pub workers : ℤ

-- What a line of the loop or the last lines print, as integers.
pub record Report : Type 0 where
  pub sent : ℕ
  pub accepted : ℕ
  pub errs : ℕ

-- Main waits in its select, or has read the first counters for a line.
pub data Reporter : Type 0 where
  selecting : Reporter
  read_sent : ℕ → Reporter
  read_accepted : ℕ → ℕ → Reporter

abbrev pub report : ℕ → ℕ → ℕ → Report
report sent accepted errs = record { sent = sent; accepted = accepted; errs = errs }

-- The last lines, after all workers have returned.
abbrev pub summary : Counters → Report
summary c = report c.sent c.accepted c.errs

-- `idle` workers wait in their select, and `posting` ones for the client; the others have returned.
pub record Load : Type 0 where
  pub counters : Counters
  pub idle : ℕ
  pub posting : ℕ
  pub stopping : Bool
  pub reporter : Reporter
  pub reports : List Report
  pub requests : List (List LogEvent)
  pub answers : List Posted

abbrev pub load_of : ℕ → Load
load_of n = record {
  counters = zeros;
  idle = n;
  posting = 0;
  stopping = false;
  reporter = selecting;
  reports = [];
  requests = [];
  answers = [];
}

-- `for w := 0; w < *workers; w++` with the tickers that the workers make; none is made without a
-- worker.
abbrev pub start_workers : ℤ → Outcome ℤ → Outcome Load
start_workers workers (panics e) = if leb_ℤ workers (pos 0) then returns (load_of 0) else panics e
start_workers workers (returns interval) = returns (load_of (pos_part workers))

abbrev pub start_at : ℤ → Outcome ℤ → Outcome Load
start_at workers (panics e) = panics e
start_at workers (returns rate) = start_workers workers (interval_of rate workers)

unfoldable pub start : Settings → Outcome Load
start cfg = start_at cfg.workers (rate_of cfg.rps cfg.batch)

-- The indices are within the lists, as `rand.Intn` documents, and the clock is not at Go's zero time.
pub record InRange (d : Draw) : Type 0 where
  pub service : d.service < length services
  pub level : d.level < length levels
  pub message : d.message < length messages
  pub past_zero : is_zero d.utc ≡ false

-- A ticker may fire once more while `stop` is closed: the select takes either. The three counters of
-- a line are read one after the other, and the workers go on meanwhile.
pub data Step (batch : ℤ) (s t : Load) : Type 0 where
  sends :
      (n : ℕ) (draw : ℕ → Draw) (events : List LogEvent)
      → s.idle ≡ suc n
      → ((i : ℕ) → InRange (draw i))
      → make_events batch draw ≡ returns events
      → t ≡ record s {
        counters = count_sent batch s.counters;
        idle = n;
        posting = suc s.posting;
        requests = events ∷ s.requests;
      }
      → Step batch s t
  answered :
      (n : ℕ) (p : Posted)
      → s.posting ≡ suc n
      → t ≡ record s {
        counters = count_posted p s.counters;
        idle = suc s.idle;
        posting = n;
        answers = p ∷ s.answers;
      }
      → Step batch s t
  leaves : (n : ℕ) → s.idle ≡ suc n → s.stopping ≡ true → t ≡ record s { idle = n } → Step batch s t
  ticks :
      s.stopping ≡ false
      → s.reporter ≡ selecting
      → t ≡ record s { reporter = read_sent s.counters.sent }
      → Step batch s t
  reads :
      (n : ℕ)
      → s.reporter ≡ read_sent n
      → t ≡ record s { reporter = read_accepted n s.counters.accepted }
      → Step batch s t
  prints :
      (n m : ℕ)
      → s.reporter ≡ read_accepted n m
      → t ≡ record s { reporter = selecting; reports = report n m s.counters.errs ∷ s.reports }
      → Step batch s t
  deadline :
      s.stopping ≡ false
      → s.reporter ≡ selecting
      → t ≡ record s { stopping = true }
      → Step batch s t

pub data Reach (batch : ℤ) (s : Load) : Load → Type 0 where
  here : Reach batch s s
  next : {t u : Load} → Reach batch s t → Step batch t u → Reach batch s u

-- `wg.Wait()` has returned.
pub record IsDone (s : Load) : Type 0 where
  pub stopping : s.stopping ≡ true
  pub reporter : s.reporter ≡ selecting
  pub idle : s.idle ≡ 0
  pub posting : s.posting ≡ 0
