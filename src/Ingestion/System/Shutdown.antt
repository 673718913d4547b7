-- ===== src/Ingestion/System/Shutdown.antt =====
-- A shutdown with the context cancelled first, as cmd/ingestor/main.go does it (`cancel()` before
-- `pipeline.Stop()`), and one by `Stop` alone.
use distributed_logs_aggrega.Base.{
  ℕ, zero, suc, ◌+◌, ◌≤◌, ◌≡◌, refl, ◌∙◌, ◌⊎◌, inl, inr, true, false, some, List, [], ◌∷◌,
  get_elem?, set, count, All, All-get, arith, get_elem?-set_self, Bool-cases,
}
use distributed_logs_aggrega.Base.Channel.{IsDry, Channel, recv_dry, recv_next}
use distributed_logs_aggrega.Models.{LogEvent}
use distributed_logs_aggrega.Storage.Insert.{other_error}
use distributed_logs_aggrega.Ingestion.Worker.{
  Driver, Local, Wake, context_done, received, channel_closed, round,
}
use distributed_logs_aggrega.Ingestion.Worker.Rounds.{round-queue}
use distributed_logs_aggrega.Ingestion.System.{
  Worker, System, resume, with_queue, Runs, Step, submits, stops, receives, drained, ticks, scrapes,
  observes, scraper_leaves, cancels, stop, Reach, here, next,
}
use distributed_logs_aggrega.Ingestion.System.Drain.{IsStopped}

-- A driver that reports an error.
abbrev pub idle_driver : Driver
idle_driver = record { insert_many = λ es. other_error "timeout"; elapsed = 0 }

pub Reach-cons : {s t u : System} → Step s t → Reach t u → Reach s u
Reach-cons st here = next here st
Reach-cons st (next path last) = next (Reach-cons st path) last

pub Reach_trans : {s t u : System} → Reach s t → Reach t u → Reach s u
Reach_trans path here = path
Reach_trans path (next later st) = next (Reach_trans path later) st

abbrev live : List Worker → ℕ
live ks = count (λ k. k.running) ks

find_running :
    (ks : List Worker)
    → All IsStopped ks ⊎ ((i : ℕ) × (k : Worker) × (get_elem? ks i ≡ some k) × (k.running ≡ true))
find_running [] = inl tt
find_running (k ∷ ks) = elim (Bool-cases k.running) [
  | inl runs ↦ inr (zero, k, refl, runs)
  | inr stopped ↦ elim (find_running ks) [
    | inl all ↦ inl (stopped, all)
    | inr (i, k', e, runs) ↦ inr (suc i, k', e, runs)
  ]
]

live-set :
    (ks : List Worker) (i : ℕ) (k k' : Worker)
    → get_elem? ks i ≡ some k
    → k.running ≡ true
    → k'.running ≡ false
    → live (set ks i k') + 1 ≡ live ks
unfolding count
live-set [] i k k' h a b = cc
live-set (x ∷ ks) zero k k' h a b = ground arith
live-set (x ∷ ks) (suc i) k k' h a b = omega (arith, live-set ks i k k' h a b)

-- Every worker has left, and the queue is that of `s`.
abbrev Left : System → System → Type 0
Left s t = All IsStopped t.workers × (t.pipeline.queue ≡ s.pipeline.queue)

-- A round that ends worker `i`.
module _ (drv : Driver) where
  resume-live :
      (i : ℕ) (w : Wake) (k : Worker) (s : System)
      → Runs s i k
      → (round w drv (record { batch = k.batch; pipeline = s.pipeline; writes = s.writes })).1
        ≡ false
      → live (resume i w drv k s).workers + 1 ≡ live s.workers
  unfolding resume
  resume-live i w k s runs ends = live-set s.workers i k _ runs.0 runs.1 ends

  resume-queue :
      (i : ℕ) (w : Wake) (k : Worker) (s : System)
      → (resume i w drv k s).pipeline.queue ≡ s.pipeline.queue
  unfolding resume
  resume-queue i w k s =
      (round-queue w drv (record { batch = k.batch; pipeline = s.pipeline; writes = s.writes })).0

  -- A way to leave that stays open while workers take it.
  module _ (w : Wake) (Ready : System → Type 0) (ends : (l : Local) → (round w drv l).1 ≡ false)
      (may : (i : ℕ) (k : Worker) (s : System) → Ready s → Runs s i k → Step s (resume i w drv k s))
      (stays : (i : ℕ) (k : Worker) (s : System) → Ready s → Ready (resume i w drv k s)) where
    all_leave :
        (n : ℕ) (s : System) → live s.workers ≤ n → Ready s → (t : System) × Reach s t × Left s t
    all_leave zero s b ready = elim (find_running s.workers) [
      | inl all ↦ (s, here, (all, refl))
      | inr (i, k, e, runs) ↦ absurd (omega (arith, resume-live i w k s (e, runs) (ends _)))
    ]
    all_leave (suc n) s b ready = elim (find_running s.workers) [
      | inl all ↦ (s, here, (all, refl))
      | inr (i, k, e, runs) ↦
          let (t, path, left) =
            all_leave n (resume i w drv k s) (omega (arith, resume-live i w k s (e, runs) (ends _)))
              (stays i k s ready) in
          (t, Reach-cons (may i k s ready (e, runs)) path, (left.0, left.1 ∙ resume-queue i w k s))
    ]

  canceled-resume :
      (i : ℕ) (k : Worker) (s : System)
      → s.canceled ≡ true
      → (resume i context_done drv k s).canceled ≡ true
  unfolding resume
  canceled-resume i k s c = c

  pub cancel_may_leave :
      (s : System)
      → s.canceled ≡ true
      → (t : System) × Reach s t × All IsStopped t.workers × (t.pipeline.queue ≡ s.pipeline.queue)
  unfolding round
  cancel_may_leave s c =
      let (t, path, left) =
        all_leave context_done (λ s. s.canceled ≡ true) (λ l. refl)
          (λ i k s c runs. stops i k drv runs c refl) canceled-resume (live s.workers) s
          (omega arith) c in
      (t, path, left.0, left.1)

stopped-Step :
    {s t : System}
    → Step s t
    → All IsStopped s.workers
    → (t.workers ≡ s.workers) × (t.writes ≡ s.writes)
stopped-Step {s} (submits r ev e) h = rw e (refl, refl)
stopped-Step {s} (stops i k drv runs c e) h = cc (All-get IsStopped s.workers i k h runs.0, runs.1)
stopped-Step {s} (receives i k drv ev ch runs got e) h =
    cc (All-get IsStopped s.workers i k h runs.0, runs.1)
stopped-Step {s} (drained i k drv runs c e) h =
    cc (All-get IsStopped s.workers i k h runs.0, runs.1)
stopped-Step {s} (ticks i k drv runs e) h = cc (All-get IsStopped s.workers i k h runs.0, runs.1)
stopped-Step {s} (scrapes b e) h = rw e (refl, refl)
stopped-Step {s} (observes f e) h = rw e (refl, refl)
stopped-Step {s} (scraper_leaves b c e) h = rw e (refl, refl)
stopped-Step {s} (cancels e) h = rw e (refl, refl)
stopped-Step {s} (stop ch c e) h = rw e (refl, refl)

stopped-Reach :
    {s t : System}
    → All IsStopped s.workers
    → Reach s t
    → (t.workers ≡ s.workers) × (t.writes ≡ s.writes)
stopped-Reach h here = (refl, refl)
stopped-Reach h (next path st) =
    let (ks, ws) = stopped-Reach h path in
    let (ks', ws') = stopped-Step st (rw ks h) in (ks' ∙ ks, ws' ∙ ws)

-- Once the context is cancelled, some run leads to a state in which the queue is as it was and from
-- which no later step writes anything, however much is queued: events that were reported as accepted
-- can be lost at a shutdown.
pub cancel_abandons :
    (s : System)
    → s.canceled ≡ true
    → (t : System) × Reach s t
      × (t.pipeline.queue ≡ s.pipeline.queue)
      × ((u : System) → Reach t u → u.writes ≡ t.writes)
cancel_abandons s c =
    let (t, path, stopped, same) = cancel_may_leave idle_driver s c in
    (t, path, same, (λ u later. (stopped-Reach stopped later).1))

module _ (drv : Driver) where
  IsDry-resume :
      (i : ℕ) (k : Worker) (s : System)
      → IsDry s.pipeline.queue
      → IsDry (resume i channel_closed drv k s).pipeline.queue
  IsDry-resume i k s d = rw (resume-queue drv i channel_closed k s) d

  leave_dry : (s : System) → IsDry s.pipeline.queue → (t : System) × Reach s t × Left s t
  unfolding round
  leave_dry s d =
      all_leave drv channel_closed (λ s. IsDry s.pipeline.queue) (λ l. refl)
        (λ i k s d runs. drained i k drv runs (recv_dry s.pipeline.queue d) refl) IsDry-resume
        (live s.workers) s (omega arith) d

  takes-Runs :
      (i : ℕ) (k : Worker) (x : LogEvent) (s : System)
      → Runs s i k
      → (k' : Worker) × Runs (resume i (received x) drv k s) i k'
  unfolding resume round
  takes-Runs i k x s runs = (_, (get_elem?-set_self s.workers i k _ runs.0, refl))

  -- From a state with a closed queue and a worker in its loop some run leads to one in which the
  -- queue is empty and every worker has left, however much was queued and whatever the driver answers.
  pub stop_drains :
      (items : List LogEvent) (s : System) (i : ℕ) (k : Worker)
      → s.pipeline.queue.items ≡ items
      → s.pipeline.queue.closed ≡ true
      → Runs s i k
      → (t : System) × Reach s t × All IsStopped t.workers × (t.pipeline.queue.items ≡ [])
  stop_drains [] s i k e closed runs =
      let (t, path, left) = leave_dry s (closed, e) in (t, path, left.0, rw (left.1) e)
  stop_drains (x ∷ xs) s i k e closed runs =
      let ch : Channel LogEvent = record (s.pipeline.queue) { items = xs } in
      let s' = resume i (received x) drv k (with_queue ch s) in
      let same = resume-queue drv i (received x) k (with_queue ch s) in
      let (k', runs') = takes-Runs i k x (with_queue ch s) runs in
      let (t, path, stopped, empty) =
        stop_drains xs s' i k' (rw same refl) (rw same closed) runs' in
      (
        t,
        Reach-cons (receives i k drv x ch runs (recv_next s.pipeline.queue x xs e) refl) path,
        stopped,
        empty,
      )
