-- ===== src/Cmd/Loadgen/Ending.antt =====
-- A run of the load generator can come to its end from any state.
use distributed_logs_aggrega.Base.{ℕ, zero, suc, ◌≡◌, refl, true, ◌∷◌, Bool-cases, inl, inr}
use distributed_logs_aggrega.Base.Int.{ℤ}
use distributed_logs_aggrega.Cmd.Loadgen.{post_failed, count_posted}
use distributed_logs_aggrega.Cmd.Loadgen.Run.{
  Load, Reporter, selecting, read_sent, read_accepted, report, answered, leaves, reads, prints,
  deadline, Reach, here, next, IsDone,
}

-- The workers that wait leave one after the other.
all_leave :
    (batch : ℤ) (n : ℕ) (s t : Load)
    → t.idle ≡ n
    → t.posting ≡ 0
    → t.stopping ≡ true
    → t.reporter ≡ selecting
    → Reach batch s t
    → (u : Load) × Reach batch s u × IsDone u
all_leave batch zero s t i p stopping waits path =
    (t, path, record { stopping = stopping; reporter = waits; idle = i; posting = p })
all_leave batch (suc n) s t i p stopping waits path =
    all_leave batch n s (record t { idle = n }) refl p stopping waits
      (next path (leaves n i stopping refl))

-- The client returns to the workers that post, with its timeout at the latest.
all_answered :
    (batch : ℤ) (n : ℕ) (s t : Load)
    → t.posting ≡ n
    → t.stopping ≡ true
    → t.reporter ≡ selecting
    → Reach batch s t
    → (u : Load) × Reach batch s u × IsDone u
all_answered batch zero s t p stopping waits path =
    all_leave batch t.idle s t refl p stopping waits path
all_answered batch (suc n) s t p stopping waits path =
    all_answered batch n s
      (record t {
        counters = count_posted (post_failed "timeout") t.counters;
        idle = suc t.idle;
        posting = n;
        answers = post_failed "timeout" ∷ t.answers;
      })
      refl stopping waits (next path (answered n (post_failed "timeout") p refl))

-- Once main waits in its select, the deadline may come.
selecting_can_end :
    (batch : ℤ) (s t : Load)
    → t.reporter ≡ selecting
    → Reach batch s t
    → (u : Load) × Reach batch s u × IsDone u
selecting_can_end batch s t waits path = elim (Bool-cases t.stopping) [
  | inl stopping ↦ all_answered batch t.posting s t refl stopping waits path
  | inr going ↦
      all_answered batch t.posting s (record t { stopping = true }) refl refl waits
        (next path (deadline going waits refl))
]

prints_can_end :
    (batch : ℤ) (s t : Load) (n m : ℕ)
    → t.reporter ≡ read_accepted n m
    → Reach batch s t
    → (u : Load) × Reach batch s u × IsDone u
prints_can_end batch s t n m reading path =
    selecting_can_end batch s
      (record t { reporter = selecting; reports = report n m t.counters.errs ∷ t.reports }) refl
      (next path (prints n m reading refl))

reporter_can_end :
    (batch : ℤ) (s : Load) (x : Reporter) → s.reporter ≡ x → (u : Load) × Reach batch s u × IsDone u
reporter_can_end batch s selecting e = selecting_can_end batch s s e here
reporter_can_end batch s (read_sent n) e =
    prints_can_end batch s (record s { reporter = read_accepted n s.counters.accepted }) n
      s.counters.accepted refl (next here (reads n e refl))
reporter_can_end batch s (read_accepted n m) e = prints_can_end batch s s n m e here

pub can_end : (batch : ℤ) (s : Load) → (u : Load) × Reach batch s u × IsDone u
can_end batch s = reporter_can_end batch s s.reporter refl
