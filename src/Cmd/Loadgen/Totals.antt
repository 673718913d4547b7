-- ===== src/Cmd/Loadgen/Totals.antt =====
-- What the counters of the load generator hold while its workers run, and its exit status.
use distributed_logs_aggrega.Base.{
  Bool, ℕ, zero, suc, ◌%◌, ◌^◌, ◌≡◌, ◌<◌, ◌≤◌, refl, sym, ap, subst, arith, List, [], ◌∷◌, length,
  All, ltb, if◌then◌else◌, Bool-cases, inl, inr,
}
use distributed_logs_aggrega.Base.Int.{ℤ, pos, negsuc, pos_part, leb_ℤ}
use distributed_logs_aggrega.Base.Outcome.{Outcome, returns, panics}
use distributed_logs_aggrega.Base.Word.{modulus}
use distributed_logs_aggrega.Models.{LogEvent}
use distributed_logs_aggrega.Cmd.Loadgen.{
  Draw, Posted, post_failed, responded, Counters, rate_of, interval_of, generate, make_events,
  count_posted, exit_status,
}
use distributed_logs_aggrega.Cmd.Loadgen.Run.{
  Settings, Load, load_of, start_workers, start_at, start, InRange, Step, sends, answered, leaves,
  ticks, reads, prints, deadline, Reporter, Report, selecting, Reach, here, next, IsDone,
}
use distributed_logs_aggrega.Cmd.Loadgen.Events.{random_event-validate}
use distributed_logs_aggrega.Cmd.Loadgen.Ending.{can_end}
use distributed_logs_aggrega.Cmd.Loadgen.Reports.{
  failures, Passes, Counted, due_lines, due_lines-next, printing,
}

generate-All :
    (n : ℕ) (draw : ℕ → Draw)
    → ((i : ℕ) → InRange (draw i))
    → All Passes (generate n draw) × (length (generate n draw) ≡ n)
generate-All zero draw r = (tt, refl)
generate-All (suc n) draw r =
    let (passes, counts) = generate-All n (λ i. draw (suc i)) (λ i. r (suc i)) in
    ((λ now. random_event-validate now (draw 0) (r 0), passes), omega (arith, counts))

make_events-All :
    (batch : ℤ) (draw : ℕ → Draw) (events : List LogEvent)
    → make_events batch draw ≡ returns events
    → ((i : ℕ) → InRange (draw i))
    → All Passes events × (pos (length events) ≡ batch)
make_events-All (pos n) draw events h r =
    let (passes, counts) = generate-All n draw r in
    let made : generate n draw ≡ events = cc in
    (subst (All Passes) made passes, rw (sym made) (ap pos counts))
make_events-All (negsuc n) draw events h r = cc

count_posted-Counted :
    (batch : ℤ) (p : Posted) (n : ℕ) (s : Load)
    → s.posting ≡ suc n
    → Counted batch s
    → Counted batch (record s {
      counters = count_posted p s.counters;
      idle = suc s.idle;
      posting = n;
      answers = p ∷ s.answers;
    })
count_posted-Counted batch (post_failed e) n s h c = record {
  sent = c.sent;
  accepted = omega (arith, c.accepted);
  errs = rw c.errs (omega arith);
  waiting = omega (arith, h, c.waiting);
  sized = c.sized;
  valid = c.valid;
}
count_posted-Counted batch (responded status accepted) n s h c = record {
  sent = c.sent;
  accepted = rw c.accepted (omega arith);
  errs = omega (arith, c.errs);
  waiting = omega (arith, h, c.waiting);
  sized = c.sized;
  valid = c.valid;
}

-- The loop of main and the workers that leave change none of the totals.
same_counts :
    {batch : ℤ} {s : Load} {idle : ℕ} {stopping : Bool} {reporter : Reporter}
    {reports : List Report}
    → Counted batch s
    → Counted batch
        (record s { idle = idle; stopping = stopping; reporter = reporter; reports = reports })
same_counts c = record {
  sent = c.sent;
  accepted = c.accepted;
  errs = c.errs;
  waiting = c.waiting;
  sized = c.sized;
  valid = c.valid;
}

Step-Counted : {batch : ℤ} {s t : Load} → Step batch s t → Counted batch s → Counted batch t
Step-Counted {batch} {s} (sends n draw events idle ranges made e) c =
    let (passes, counts) = make_events-All batch draw events made ranges in
    rw e (record {
      sent = rw (c.sent, sym counts) (omega arith);
      accepted = c.accepted;
      errs = c.errs;
      waiting = omega (arith, c.waiting);
      sized = (counts, c.sized);
      valid = (passes, c.valid);
    })
Step-Counted {batch} {s} (answered n p posting e) c =
    rw e (count_posted-Counted batch p n s posting c)
Step-Counted (leaves n idle stopping e) c = rw e (same_counts c)
Step-Counted (ticks going waits e) c = rw e (same_counts c)
Step-Counted (reads n reading e) c = rw e (same_counts c)
Step-Counted (prints n m reading e) c = rw e (same_counts c)
Step-Counted (deadline going waits e) c = rw e (same_counts c)

Reach-Counted : {batch : ℤ} {s t : Load} → Reach batch s t → Counted batch s → Counted batch t
Reach-Counted here c = c
Reach-Counted (next path step) c = Step-Counted step (Reach-Counted path c)

Reach-due_lines :
    {batch : ℤ} {s t : Load} (path : Reach batch s t)
    → Counted batch s
    → printing s ≡ (selecting, [])
    → printing t ≡ due_lines path
unfolding due_lines
Reach-due_lines here c h = h
Reach-due_lines (next path step) c h =
    due_lines-next path step (Reach-Counted path c) (Reach-due_lines path c h)

load_of-Counted : (batch : ℤ) (n : ℕ) → Counted batch (load_of n)
load_of-Counted batch n = record {
  sent = refl;
  accepted = refl;
  errs = refl;
  waiting = refl;
  sized = tt;
  valid = tt;
}

-- Nothing is counted, and nothing printed.
abbrev Begun : ℤ → Load → Type 0
Begun batch s = Counted batch s × (printing s ≡ (selecting, []))

started-Counted : (cfg : Settings) (s : Load) → start cfg ≡ returns s → Begun cfg.batch s
unfolding start
started-Counted cfg s h = started_at (rate_of cfg.rps cfg.batch) h
  where
    returned : (n : ℕ) → returns (load_of n) ≡ returns s → Begun cfg.batch s
    returned n h =
        let same : load_of n ≡ s = cc in
        subst (Begun cfg.batch) same (load_of-Counted cfg.batch n, refl)

    workers_at : (o : Outcome ℤ) → start_workers cfg.workers o ≡ returns s → Begun cfg.batch s
    workers_at (panics e) h = elim (Bool-cases (leb_ℤ cfg.workers (pos 0))) [
      | inl none_made ↦ returned 0 (rw none_made at h)
      | inr made ↦ cc
    ]
    workers_at (returns interval) h = returned (pos_part cfg.workers) h

    started_at : (o : Outcome ℤ) → start_at cfg.workers o ≡ returns s → Begun cfg.batch s
    started_at (panics e) h = cc
    started_at (returns rate) h = workers_at (interval_of rate cfg.workers) h

failures≤length : (ps : List Posted) → failures ps ≤ length ps
failures≤length [] = omega arith
failures≤length (post_failed e ∷ ps) = omega (arith, failures≤length ps)
failures≤length (responded status accepted ∷ ps) = omega (arith, failures≤length ps)

exit_status-failures :
    (c : Counters) (n : ℕ)
    → c.errs ≡ n % modulus
    → n < 2 ^ 63
    → exit_status c ≡ (if ltb 0 n then 1 else 0)
unfolding exit_status
exit_status-failures c n h b = ground (arith, h, b)

-- At any moment of a load test the counter of sent events is the number of events in all requests,
-- that of accepted ones the sum of what the responses report, and that of errors the number of
-- requests that failed, modulo 2 ^ 64; each request has had its answer or waits for it, holds `batch`
-- events, and all of them pass the server's validation as they are. The lines that main has
-- printed are those that its ticks called for, each with the events sent until the tick, the accepted
-- ones until the next reading and the errors until it was printed. The run can still come to its
-- end, and with fewer than 2 ^ 63 answers the exit status is 1 just if a request has failed: a
-- response that rejects its events, with whatever status, is no failure.
pub run-Counted :
    (cfg : Settings) (s t : Load)
    → start cfg ≡ returns s
    → (path : Reach cfg.batch s t) → length t.answers < 2 ^ 63
    → Counted cfg.batch t
      × (printing t ≡ due_lines path)
      × (exit_status t.counters ≡ (if ltb 0 (failures t.answers) then 1 else 0))
      × ((u : Load) × Reach cfg.batch t u × IsDone u)
run-Counted cfg s t started path fits =
    let (first, unprinted) = started-Counted cfg s started in
    let c = Reach-Counted path first in
    (
      c,
      Reach-due_lines path first unprinted,
      exit_status-failures t.counters (failures t.answers) c.errs
          (omega (arith, failures≤length t.answers, fits)),
      can_end cfg.batch t,
    )
