-- ===== src/Tests/Load.antt =====
-- The load generator.
use distributed_logs_aggrega.Base.{◌≡◌, refl, [], ◌∷◌, arith}
use distributed_logs_aggrega.Base.Int.{pos, quotient, ◌*ℤ◌}
use distributed_logs_aggrega.Base.Outcome.{returns}
use distributed_logs_aggrega.Models.{is_zero}
use distributed_logs_aggrega.Cmd.Loadgen.{
  Draw, Posted, post_failed, responded, zeros, rate_of, interval_of, generate, count_sent,
  count_posted, exit_status,
}
use distributed_logs_aggrega.Cmd.Loadgen.Run.{
  Settings, Load, load_of, start, InRange, Reach, here, next, sends, answered, ticks, reads, prints,
  IsDone,
}
use distributed_logs_aggrega.Cmd.Loadgen.Pace.{Paced, rate_of-Paced}
use distributed_logs_aggrega.Cmd.Loadgen.Reports.{Counted, due_lines, printing}
use distributed_logs_aggrega.Cmd.Loadgen.Totals.{run-Counted}

-- The defaults: 50 events a request, 1000 a second, by 16 workers.
rate_of-Paced_example : Paced 1000 50 16
rate_of-Paced_example =
    rate_of-Paced 1000 50 16 (omega arith) (omega arith) (omega arith) (omega arith) (omega arith)

abbrev drawn : Draw
drawn = record { utc = pos 5; service = 7; pod = 42; level = 6; message = 9; uuid = "u1"; host = 3 }

drawn-InRange : InRange drawn
unfolding is_zero
drawn-InRange = record {
  service = omega arith;
  level = omega arith;
  message = omega arith;
  past_zero = refl;
}

abbrev two_workers : Settings
two_workers = record { rps = pos 1000; batch = pos 2; workers = pos 2 }

two_workers-start : start two_workers ≡ returns (load_of 2)
unfolding start rate_of interval_of quotient ◌*ℤ◌
two_workers-start = refl

abbrev posting : Load
posting = record (load_of 2) {
  counters = count_sent (pos 2) zeros;
  idle = 1;
  posting = 1;
  requests = generate 2 (λ i. drawn) ∷ [];
}

-- A request ends as given, while the other worker waits.
abbrev answered_by : Posted → Load
answered_by p = record posting {
  counters = count_posted p posting.counters;
  idle = 2;
  posting = 0;
  answers = p ∷ [];
}

-- A line is printed: the tick comes while the request is posted, the rest is read after the answer.
abbrev reported_on : Load
reported_on = record (answered_by (post_failed "refused")) {
  reports = record { sent = 2; accepted = 0; errs = 1 } ∷ [];
}

reported_on-Reach : Reach (pos 2) (load_of 2) reported_on
reported_on-Reach =
    next
      (next
        (next
          (next (next here (sends 1 (λ i. drawn) _ refl (λ i. drawn-InRange) refl refl))
            (ticks refl refl refl))
          (answered 0 (post_failed "refused") refl refl))
        (reads 2 refl refl))
      (prints 2 0 refl refl)

run-Counted_example :
    Counted (pos 2) reported_on
    × (printing reported_on ≡ due_lines reported_on-Reach)
    × (exit_status reported_on.counters ≡ 1)
    × ((u : Load) × Reach (pos 2) reported_on u × IsDone u)
run-Counted_example =
    run-Counted two_workers (load_of 2) reported_on two_workers-start reported_on-Reach
      (omega arith)

-- A server that answers every request with an error is no failure; a lost connection is one.
unavailable_exits : exit_status (answered_by (responded 503 (pos 0))).counters ≡ 0
unfolding exit_status
unavailable_exits = refl

refused_exits : exit_status (answered_by (post_failed "refused")).counters ≡ 1
unfolding exit_status
refused_exits = refl
