-- ===== src/Ingestion/System/Conservation.antt =====
-- What becomes of the events between the queue and the store, on any interleaving.
use distributed_logs_aggrega.Base.{
  ℕ, zero, suc, ◌+◌, ◌≡◌, refl, ap, inl, inr, Bool, some, List, [], ◌∷◌, ◌++◌, length, get_elem?,
  set, concat, drop, drop-length-append, drop-length, count, count-append, arith,
}
use distributed_logs_aggrega.Base.Channel.{recv_gets, close_chan_lem, Channel}
use distributed_logs_aggrega.Models.{LogEvent}
use distributed_logs_aggrega.Ingestion.{Pipeline}
use distributed_logs_aggrega.Ingestion.Submit.{Reading, submit}
use distributed_logs_aggrega.Ingestion.Submit.Cases.{stamped}
use distributed_logs_aggrega.Ingestion.Submit.Growth.{Grows, submit-Grows}
use distributed_logs_aggrega.Ingestion.Worker.{
  Driver, Local, Wake, context_done, received, channel_closed, ticked, round,
}
use distributed_logs_aggrega.Ingestion.Worker.Rounds.{taken, round-owed, round-queue}
use distributed_logs_aggrega.Ingestion.System.{
  Worker, System, resume, with_queue, Runs, Step, submits, stops, receives, drained, ticks, scrapes,
  observes, scraper_leaves, cancels, stop, Reach, here, next, spawn, workers_of,
}
use distributed_logs_aggrega.Ingestion.System.Started.{IsNew, IsStarted}
use distributed_logs_aggrega.Base.Int.{ℤ, pos, negsuc}
use distributed_logs_aggrega.Config.{IngestorConfig}

abbrev pub batches : List Worker → List LogEvent
batches [] = []
batches (k ∷ ks) = k.batch ++ batches ks

-- Every event between the end of the queue and the store: written, in a batch, or queued.
abbrev pub held : System → List LogEvent
held s = concat s.writes ++ (batches s.workers ++ s.pipeline.queue.items)

-- What a submission puts into the queue: all that stands there behind the items it found.
abbrev pub enters : Reading → LogEvent → Pipeline → List LogEvent
enters r ev p = drop (length p.queue.items) (submit r ev p).0.queue.items

abbrev pub entered : {s t : System} → Step s t → List LogEvent
entered {s} (submits r ev e) = enters r ev s.pipeline
entered _ = []

unfoldable pub all_entered : {s t : System} → Reach s t → List LogEvent
all_entered here = []
all_entered (next path st) = all_entered path ++ entered st

module _ (p : LogEvent → Bool) where
  count-batches-set :
      (ks : List Worker) (i : ℕ) (k k' : Worker)
      → get_elem? ks i ≡ some k
      → count p (batches (set ks i k')) + count p k.batch ≡ count p (batches ks) + count p k'.batch
  count-batches-set [] i k k' h = cc
  count-batches-set (x ∷ ks) zero k k' h =
      let e : x ≡ k = cc in
      omega (
        arith,
        ap (λ (w : Worker). count p w.batch) e,
        count-append p k'.batch (batches ks),
        count-append p x.batch (batches ks),
      )
  count-batches-set (x ∷ ks) (suc i) k k' h = omega (
    arith,
    count-append p x.batch (batches (set ks i k')),
    count-append p x.batch (batches ks),
    count-batches-set ks i k k' h,
  )

  abbrev pub tally : System → ℕ
  tally s = count p (concat s.writes) + count p (batches s.workers) + count p s.pipeline.queue.items

  pub count-held : (s : System) → count p (held s) ≡ tally s
  count-held s = omega (
    arith,
    count-append p (concat s.writes) (batches s.workers ++ s.pipeline.queue.items),
    count-append p (batches s.workers) s.pipeline.queue.items,
  )

  tally-resume :
      (i : ℕ) (w : Wake) (drv : Driver) (k : Worker) (s : System)
      → Runs s i k
      → tally (resume i w drv k s) ≡ tally s + count p (taken w)
  unfolding resume
  tally-resume i w drv k s runs =
      let l : Local = record { batch = k.batch; pipeline = s.pipeline; writes = s.writes } in
      let (l', running) = round w drv l in
      omega (
        arith,
        count-batches-set s.workers i k (record { batch = l'.batch; running = running }) runs.0,
        round-owed p w drv l,
        ap (λ (ch : Channel LogEvent). count p ch.items) (round-queue w drv l).0,
      )

  count-enters :
      (r : Reading) (ev : LogEvent) (q : Pipeline)
      → Grows (stamped r ev) q (submit r ev q).0
      → count p (submit r ev q).0.queue.items ≡ count p q.queue.items + count p (enters r ev q)
  unfolding count
  count-enters r ev q g = elim g.queue [
    | inl e ↦ rw (e, drop-length) (omega arith)
    | inr (_, _, e) ↦
        rw (e, drop-length-append) (omega (arith, count-append p q.queue.items (stamped r ev ∷ [])))
  ]

  pub tally-Step : {s t : System} (st : Step s t) → tally t ≡ tally s + count p (entered st)
  unfolding count
  tally-Step {s} (submits r ev e) =
      rw e (omega (arith, count-enters r ev s.pipeline (submit-Grows r ev s.pipeline)))
  tally-Step {s} (stops i k drv runs c e) = rw e (tally-resume i context_done drv k s runs)
  tally-Step {s} (receives i k drv ev ch runs got e) = rw e (
      omega (
        arith,
        tally-resume i (received ev) drv k (with_queue ch s) runs,
        ap (λ (xs : List LogEvent). count p xs) (recv_gets s.pipeline.queue ch got).0,
      ))
  tally-Step {s} (drained i k drv runs c e) = rw e (tally-resume i channel_closed drv k s runs)
  tally-Step {s} (ticks i k drv runs e) = rw e (tally-resume i ticked drv k s runs)
  tally-Step {s} (scrapes b e) = rw e (omega arith)
  tally-Step {s} (observes f e) = rw e (omega arith)
  tally-Step {s} (scraper_leaves b c e) = rw e (omega arith)
  tally-Step {s} (cancels e) = rw e (omega arith)
  tally-Step {s} (stop ch h e) = rw (e, (close_chan_lem s.pipeline.queue ch h).1) (omega arith)

  tally-Reach : {s t : System} (path : Reach s t) → tally t ≡ tally s + count p (all_entered path)
  unfolding all_entered count
  tally-Reach here = omega arith
  tally-Reach (next path st) =
      omega (arith, tally-Reach path, tally-Step st, count-append p (all_entered path) (entered st))

  pub Reach-conserves :
      {s t : System} (path : Reach s t)
      → count p (held t) ≡ count p (held s) + count p (all_entered path)
  Reach-conserves {s} {t} path = omega (arith, tally-Reach path, count-held s, count-held t)

batches-spawn : (n : ℕ) → batches (spawn n) ≡ []
unfolding spawn
batches-spawn zero = refl
batches-spawn (suc n) = batches-spawn n

pub batches-workers_of : (n : ℤ) → batches (workers_of n) ≡ []
unfolding workers_of
batches-workers_of (pos n) = batches-spawn n
batches-workers_of (negsuc n) = refl

pub started-held :
    {cfg : IngestorConfig} {p : Pipeline} {s : System} → IsNew cfg p → IsStarted p s → held s ≡ []
started-held {p} new started =
    rw (started.nothing, started.workers, batches-workers_of, started.pipeline) (new.nothing)

-- From the start of a new pipeline on, on any interleaving, what was handed to the store, what is in
-- the workers' batches and what is queued are together what submissions put into the queue, each
-- event as often: no step loses an event, doubles it or makes one up.
pub started-conserves :
    {cfg : IngestorConfig} {p : Pipeline} {s t : System}
    → IsNew cfg p
    → IsStarted p s
    → (path : Reach s t) (test : LogEvent → Bool)
    → count test (held t) ≡ count test (all_entered path)
unfolding count
started-conserves {s} new started path test = omega (
  arith,
  Reach-conserves test path,
  ap (λ (xs : List LogEvent). count test xs) (started-held new started),
)
