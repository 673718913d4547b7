-- ===== src/Cmd/Loadgen/Reports.antt =====
-- What the reports of the load generator print.
use distributed_logs_aggrega.Base.{
  ℕ, ◌+◌, ◌%◌, ◌≡◌, refl, sym, ap, List, [], ◌∷◌, length, All, none,
}
use distributed_logs_aggrega.Base.Word.{bits64, modulus}
use distributed_logs_aggrega.Base.Int.{ℤ, pos}
use distributed_logs_aggrega.Models.{LogEvent, Time, validate}
use distributed_logs_aggrega.Cmd.Loadgen.{Posted, post_failed, responded}
use distributed_logs_aggrega.Cmd.Loadgen.Run.{
  Load, Report, Reporter, selecting, read_sent, read_accepted, Step, sends, answered, leaves, ticks,
  reads, prints, deadline, Reach, here, next,
}

abbrev pub total : List (List LogEvent) → ℕ
total [] = 0
total (r ∷ rs) = length r + total rs

abbrev reported : Posted → ℕ
reported (post_failed e) = 0
reported (responded status accepted) = bits64 accepted

abbrev pub reported_by : List Posted → ℕ
reported_by [] = 0
reported_by (p ∷ ps) = reported p + reported_by ps

abbrev failed : Posted → ℕ
failed (post_failed e) = 1
failed (responded status accepted) = 0

abbrev pub failures : List Posted → ℕ
failures [] = 0
failures (p ∷ ps) = failed p + failures ps

-- The server stores the event as it is.
abbrev pub Passes : LogEvent → Type 0
Passes ev = (now : Time) → validate now ev ≡ (ev, none)

-- The counters are bit patterns, equal to the sums modulo 2 ^ 64.
pub record Counted (batch : ℤ) (s : Load) : Type 0 where
  pub sent : s.counters.sent ≡ total s.requests % modulus
  pub accepted : s.counters.accepted ≡ reported_by s.answers % modulus
  pub errs : s.counters.errs ≡ failures s.answers % modulus
  pub waiting : length s.requests ≡ s.posting + length s.answers
  pub sized : All (λ r. pos (length r) ≡ batch) s.requests
  pub valid : All (All Passes) s.requests

-- What the counters stand for at a moment.
abbrev totals : Load → Report
totals s = record {
  sent = total s.requests % modulus;
  accepted = reported_by s.answers % modulus;
  errs = failures s.answers % modulus;
}

abbrev accepted_read : Report → Reporter × List Report → Reporter × List Report
accepted_read now (read_sent n, rs) = (read_accepted n now.accepted, rs)
accepted_read now x = x

abbrev line_printed : Report → Reporter × List Report → Reporter × List Report
line_printed now (read_accepted n m, rs) =
    (selecting, record { sent = n; accepted = m; errs = now.errs } ∷ rs)
line_printed now x = x

-- The lines that a run has to print, the latest first, and the one that is being read: the events sent
-- are those in the requests until the tick, the accepted ones those in the answers until these are
-- read, and the errors those until the line is printed.
unfoldable pub due_lines : {batch : ℤ} {s t : Load} → Reach batch s t → Reporter × List Report
due_lines here = (selecting, [])
due_lines (next {t} path (ticks going waits e)) =
    (read_sent (total t.requests % modulus), (due_lines path).1)
due_lines (next {t} path (reads n reading e)) = accepted_read (totals t) (due_lines path)
due_lines (next {t} path (prints n m reading e)) = line_printed (totals t) (due_lines path)
due_lines (next path _) = due_lines path

abbrev pub printing : Load → Reporter × List Report
printing s = (s.reporter, s.reports)

pub due_lines-next :
    {batch : ℤ} {s t u : Load} (path : Reach batch s t) (step : Step batch t u)
    → Counted batch t
    → printing t ≡ due_lines path
    → printing u ≡ due_lines (next path step)
unfolding due_lines
due_lines-next path (sends n draw events idle ranges made e) c h = rw e h
due_lines-next path (answered n x posting e) c h = rw e h
due_lines-next path (leaves n idle stopping e) c h = rw e h
due_lines-next {t} path (ticks going waits e) c h =
    rw (e, c.sent)
      (ap (λ (x : Reporter × List Report). (read_sent (total t.requests % modulus), x.1)) h)
due_lines-next {t} path (reads n reading e) c h = rw (e, sym h, reading, c.accepted) refl
due_lines-next {t} path (prints n m reading e) c h = rw (e, sym h, reading, c.errs) refl
due_lines-next path (deadline going waits e) c h = rw e h
