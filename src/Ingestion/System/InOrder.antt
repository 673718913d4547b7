-- ===== src/Ingestion/System/InOrder.antt =====
-- The order in which the pipeline keeps events, in internal/ingestion/pipeline.go.
use mathlib.Core.List.{Sublist, append_assoc, append-nil, sublist-append_left, sublist-append_right}
use mathlib.Core.List.Sublist
use distributed_logs_aggrega.Base.{
  ℕ, zero, suc, ◌≡◌, refl, sym, ap, inl, inr, [], ◌∷◌, ◌++◌, drop-length-append, All, All-get,
  All-map, All-set,
}
use distributed_logs_aggrega.Base.Int.{ℤ, pos, negsuc}
use distributed_logs_aggrega.Base.Channel.{Channel, recv_gets, close_chan_lem}
use distributed_logs_aggrega.Config.{IngestorConfig}
use distributed_logs_aggrega.Models.{LogEvent}
use distributed_logs_aggrega.Ingestion.{Pipeline}
use distributed_logs_aggrega.Ingestion.Submit.{Reading, submit}
use distributed_logs_aggrega.Ingestion.Submit.Cases.{stamped}
use distributed_logs_aggrega.Ingestion.Submit.Growth.{submit-Grows}
use distributed_logs_aggrega.Ingestion.Worker.{
  Driver, Local, Wake, context_done, received, channel_closed, ticked, round,
}
use distributed_logs_aggrega.Ingestion.Worker.Rounds.{taken, round-queue}
use distributed_logs_aggrega.Ingestion.Worker.Kept.{Events, Picks, round-Kept}
use distributed_logs_aggrega.Ingestion.System.{
  Worker, System, resume, with_queue, Runs, Step, submits, stops, receives, drained, ticks, scrapes,
  observes, scraper_leaves, cancels, stop, Reach, here, next, spawn, workers_of,
}
use distributed_logs_aggrega.Ingestion.System.Started.{IsNew, IsStarted}
use distributed_logs_aggrega.Ingestion.System.Conservation.{enters, entered, all_entered}

-- A worker's batch, and the queue behind it.
abbrev Ahead : Events → Events → Worker → Type 0
Ahead all items k = Sublist (k.batch ++ items) all

pub record InOrder (all : Events) (s : System) : Type 0 where
  pub queued : Sublist s.pipeline.queue.items all
  pub batched : All (Ahead all s.pipeline.queue.items) s.workers
  pub written : Picks all s.writes

module _ (all : Events) where
  resume-InOrder :
      (i : ℕ) (w : Wake) (drv : Driver) (k : Worker) (s : System)
      → Ahead all (taken w ++ s.pipeline.queue.items) k
      → InOrder all s
      → InOrder all (resume i w drv k s)
  unfolding resume
  resume-InOrder i w drv k s ahead o =
      let l : Local = record { batch = k.batch; pipeline = s.pipeline; writes = s.writes } in
      let kept =
        round-Kept all s.pipeline.queue.items w drv l
          (record { batched = ahead; written = o.written }) in
      let same : (round w drv l).0.pipeline.queue.items ≡ s.pipeline.queue.items =
        ap (λ (ch : Channel LogEvent). ch.items) (round-queue w drv l).0 in
      record {
        queued = rw same (o.queued);
        batched =
            rw same
              (All-set (Ahead all s.pipeline.queue.items) s.workers i _ o.batched kept.batched);
        written = kept.written;
      }

  running-Ahead :
      (i : ℕ) (k : Worker) (s : System)
      → Runs s i k
      → InOrder all s
      → Ahead all s.pipeline.queue.items k
  running-Ahead i k s runs o =
      All-get (Ahead all s.pipeline.queue.items) s.workers i k o.batched runs.0

  -- The first event of the queue is gone.
  shorter-InOrder :
      (s : System) (ev : LogEvent) (ch : Channel LogEvent)
      → s.pipeline.queue.items ≡ ev ∷ ch.items
      → InOrder all s
      → InOrder all (with_queue ch s)
  shorter-InOrder s ev ch e o =
      let later : Sublist ch.items s.pipeline.queue.items =
        rw e (sublist-append_right (ev ∷ []) ch.items) in
      record {
        queued = Sublist.trans later o.queued;
        batched =
            All-map (Ahead all s.pipeline.queue.items) (Ahead all ch.items) s.workers
              (λ k. Sublist.trans (Sublist.append (Sublist.refl k.batch) later)) o.batched;
        written = o.written;
      }

  receives-InOrder :
      (i : ℕ) (k : Worker) (drv : Driver) (ev : LogEvent) (ch : Channel LogEvent) (s : System)
      → Runs s i k
      → s.pipeline.queue.items ≡ ev ∷ ch.items
      → InOrder all s
      → InOrder all (resume i (received ev) drv k (with_queue ch s))
  receives-InOrder i k drv ev ch s runs e o =
      resume-InOrder i (received ev) drv k (with_queue ch s) (rw e at (running-Ahead i k s runs o))
        (shorter-InOrder s ev ch e o)

  -- Events `es` enter behind the queue.
  module _ (es : Events) where
    longer : (xs : Events) → Sublist xs all → Sublist (xs ++ es) (all ++ es)
    longer xs h = Sublist.append h (Sublist.refl es)

    longer-InOrder :
        (s : System) (q : Pipeline)
        → q.queue.items ≡ s.pipeline.queue.items ++ es
        → InOrder all s
        → InOrder (all ++ es) (record s { pipeline = q })
    longer-InOrder s q e o = record {
      queued = rw e (longer s.pipeline.queue.items o.queued);
      batched = rw e (
          All-map (Ahead all s.pipeline.queue.items) _ s.workers
            (λ k h. rw (sym (append_assoc k.batch s.pipeline.queue.items es)) (longer _ h))
            o.batched);
      written =
          All-map (λ xs. Sublist xs all) (λ xs. Sublist xs (all ++ es)) s.writes
            (λ xs h. Sublist.trans h (sublist-append_left all es)) o.written;
    }

  -- What a submission adds is what stands behind the events that were queued.
  added :
      (r : Reading) (ev : LogEvent) (q : Pipeline) (es : Events)
      → (submit r ev q).0.queue.items ≡ q.queue.items ++ es
      → enters r ev q ≡ es
  added r ev q es e = rw e (drop-length-append q.queue.items es)

  grown :
      (r : Reading) (ev : LogEvent) (q : Pipeline)
      → (es : Events) × ((submit r ev q).0.queue.items ≡ q.queue.items ++ es)
  grown r ev q = elim (submit-Grows r ev q).queue [
    | inl same ↦ ([], rw (same, append-nil) refl)
    | inr (_, _, more) ↦ (stamped r ev ∷ [], rw more refl)
  ]

  submits-InOrder :
      (r : Reading) (ev : LogEvent) (s : System)
      → InOrder all s
      → InOrder (all ++ enters r ev s.pipeline) (record s { pipeline = (submit r ev s.pipeline).0 })
  submits-InOrder r ev s o =
      let (es, e) = grown r ev s.pipeline in
      rw (added r ev s.pipeline es e) (longer-InOrder es s (submit r ev s.pipeline).0 e o)

Step-InOrder :
    (all : Events) {s t : System} (st : Step s t) → InOrder all s → InOrder (all ++ entered st) t
Step-InOrder all {s} (submits r ev e) o = rw e (submits-InOrder all r ev s o)
Step-InOrder all {s} (stops i k drv runs c e) o =
    rw (append-nil, e)
      (resume-InOrder all i context_done drv k s (running-Ahead all i k s runs o) o)
Step-InOrder all {s} (receives i k drv ev ch runs got e) o =
    rw (append-nil, e)
      (receives-InOrder all i k drv ev ch s runs (recv_gets s.pipeline.queue ch got).0 o)
Step-InOrder all {s} (drained i k drv runs c e) o =
    rw (append-nil, e)
      (resume-InOrder all i channel_closed drv k s (running-Ahead all i k s runs o) o)
Step-InOrder all {s} (ticks i k drv runs e) o =
    rw (append-nil, e) (resume-InOrder all i ticked drv k s (running-Ahead all i k s runs o) o)
Step-InOrder all {s} (scrapes b e) o =
    rw (append-nil, e) (record { queued = o.queued; batched = o.batched; written = o.written })
Step-InOrder all {s} (observes f e) o =
    rw (append-nil, e) (record { queued = o.queued; batched = o.batched; written = o.written })
Step-InOrder all {s} (scraper_leaves b c e) o =
    rw (append-nil, e) (record { queued = o.queued; batched = o.batched; written = o.written })
Step-InOrder all {s} (cancels e) o =
    rw (append-nil, e) (record { queued = o.queued; batched = o.batched; written = o.written })
Step-InOrder all {s} (stop ch h e) o =
    rw (append-nil, e, (close_chan_lem s.pipeline.queue ch h).1)
      (record { queued = o.queued; batched = o.batched; written = o.written })

Reach-InOrder : {s t : System} (path : Reach s t) → InOrder [] s → InOrder (all_entered path) t
unfolding all_entered
Reach-InOrder here o = o
Reach-InOrder (next path st) o = Step-InOrder (all_entered path) st (Reach-InOrder path o)

spawn-Ahead : (n : ℕ) → All (Ahead [] []) (spawn n)
unfolding spawn
spawn-Ahead zero = tt
spawn-Ahead (suc n) = (Sublist.refl [], spawn-Ahead n)

workers_of-Ahead : (n : ℤ) → All (Ahead [] []) (workers_of n)
unfolding workers_of
workers_of-Ahead (pos n) = spawn-Ahead n
workers_of-Ahead (negsuc n) = tt

-- From the start of a new pipeline on, on any interleaving, each batch that was handed to the store
-- has its events in the order in which they entered the queue, and so has each worker's batch with
-- the queue behind it: workers overtake each other, but none reorders what it takes.
pub started-InOrder :
    {cfg : IngestorConfig} {p : Pipeline} {s t : System}
    → IsNew cfg p
    → IsStarted p s
    → (path : Reach s t) → InOrder (all_entered path) t
started-InOrder {p} {s} new started path = Reach-InOrder path first
  where
    first : InOrder [] s
    first = record {
      queued = rw (started.pipeline, new.nothing) (Sublist.refl []);
      batched =
          rw (started.workers, started.pipeline, new.nothing) (workers_of-Ahead p.cfg.workers);
      written = rw (started.nothing) tt;
    }
