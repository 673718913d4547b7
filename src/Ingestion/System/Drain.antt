-- ===== src/Ingestion/System/Drain.antt =====
-- A shutdown by `Stop` alone, in internal/ingestion/pipeline.go.
use distributed_logs_aggrega.Base.{
  ℕ, zero, suc, ◌++◌, ◌≡◌, refl, ap, inl, inr, Bool, false, List, [], ◌∷◌, concat, count,
  count-append, All, All-map, All-set, arith,
}
use distributed_logs_aggrega.Base.Int.{ℤ, pos, negsuc}
use distributed_logs_aggrega.Base.Channel.{Channel, IsDry, recv_closes, recv_gets, close_chan_lem}
use distributed_logs_aggrega.Config.{IngestorConfig}
use distributed_logs_aggrega.Models.{LogEvent}
use distributed_logs_aggrega.Ingestion.{Pipeline}
use distributed_logs_aggrega.Ingestion.Submit.Growth.{Grows, submit-Grows}
use distributed_logs_aggrega.Ingestion.Worker.{
  Driver, Wake, received, channel_closed, ticked, round,
}
use distributed_logs_aggrega.Ingestion.Worker.Rounds.{IsShort, round-queue}
use distributed_logs_aggrega.Ingestion.System.{
  Worker, System, resume, with_queue, Step, submits, stops, receives, drained, ticks, scrapes,
  observes, scraper_leaves, cancels, stop, Reach, here, next, spawn, workers_of,
}
use distributed_logs_aggrega.Ingestion.System.Started.{IsNew, IsStarted}
use distributed_logs_aggrega.Ingestion.System.Bounds.{started-Inv}
use distributed_logs_aggrega.Ingestion.System.Conservation.{batches, all_entered, started-conserves}

abbrev pub IsStopped : Worker → Type 0
IsStopped k = k.running ≡ false

-- A worker that has stopped has seen the queue closed and empty.
abbrev LeftDry : Channel LogEvent → Worker → Type 0
LeftDry ch k = IsStopped k → IsDry ch

record Orderly (s : System) : Type 0 where
  left : s.canceled ≡ false → All (LeftDry s.pipeline.queue) s.workers

-- A worker that goes on, or stops at a dry queue.
resume-Orderly :
    (i : ℕ) (w : Wake) (drv : Driver) (k : Worker) (s : System)
    → ((round w drv (record { batch = k.batch; pipeline = s.pipeline; writes = s.writes })).1
          ≡ false
        → IsDry s.pipeline.queue)
    → Orderly s
    → Orderly (resume i w drv k s)
unfolding resume
resume-Orderly i w drv k s stopped o = record {
  left = λ live.
      rw
        (round-queue w drv (record { batch = k.batch; pipeline = s.pipeline; writes = s.writes })).0
        (All-set (LeftDry s.pipeline.queue) s.workers i _ (o.left live) stopped);
}

submit-LeftDry :
    (ev : LogEvent) (p q : Pipeline) (k : Worker)
    → Grows ev p q
    → LeftDry p.queue k
    → LeftDry q.queue k
submit-LeftDry ev p q k g h stopped = elim g.queue [
  | inl e ↦ rw e (h stopped)
  | inr (is_open, _, _) ↦ cc (is_open, (h stopped).0)
]

Step-Orderly : {s t : System} → Step s t → Orderly s → Orderly t
unfolding round resume
Step-Orderly {s} (submits r ev e) o = rw e (record {
  left = λ live.
      All-map _ _ s.workers (λ k. submit-LeftDry _ s.pipeline _ k (submit-Grows r ev s.pipeline))
        (o.left live);
})
Step-Orderly {s} (stops i k drv runs c e) o = rw e (record { left = λ live. cc (live, c) })
Step-Orderly {s} (receives i k drv ev ch runs got e) o = rw e (
    resume-Orderly i (received ev) drv k (with_queue ch s) (λ h. cc)
      (record {
        left = λ live.
            All-map (LeftDry s.pipeline.queue) (LeftDry ch) s.workers
              (λ k h stopped. cc ((h stopped).1, (recv_gets s.pipeline.queue ch got).0))
              (o.left live);
      }))
Step-Orderly {s} (drained i k drv runs c e) o =
    rw e (resume-Orderly i channel_closed drv k s (λ _. recv_closes s.pipeline.queue c) o)
Step-Orderly {s} (ticks i k drv runs e) o = rw e (resume-Orderly i ticked drv k s (λ h. cc) o)
Step-Orderly {s} (scrapes b e) o = rw e (record { left = o.left })
Step-Orderly {s} (observes f e) o = rw e (record { left = o.left })
Step-Orderly {s} (scraper_leaves b c e) o = rw e (record { left = o.left })
Step-Orderly {s} (cancels e) o = rw e (record { left = λ live. cc })
Step-Orderly {s} (stop ch h e) o =
    rw (e, (close_chan_lem s.pipeline.queue ch h).1)
      (record {
        left = λ live.
            All-map (LeftDry s.pipeline.queue) _ s.workers (λ k h stopped. (refl, (h stopped).1))
              (o.left live);
      })

Reach-Orderly : {s t : System} → Orderly s → Reach s t → Orderly t
Reach-Orderly o here = o
Reach-Orderly o (next path st) = Step-Orderly st (Reach-Orderly o path)

spawn-LeftDry : (ch : Channel LogEvent) (n : ℕ) → All (LeftDry ch) (spawn n)
unfolding spawn
spawn-LeftDry ch zero = tt
spawn-LeftDry ch (suc n) = ((λ h. cc), spawn-LeftDry ch n)

workers-LeftDry : (ch : Channel LogEvent) (n : ℤ) → All (LeftDry ch) (workers_of n)
unfolding workers_of
workers-LeftDry ch (pos n) = spawn-LeftDry ch n
workers-LeftDry ch (negsuc n) = tt

pub stopped-batches :
    (n : ℕ) (ks : List Worker)
    → All (λ k. IsShort n k.batch k.running) ks
    → All IsStopped ks
    → batches ks ≡ []
stopped-batches n [] b h = refl
stopped-batches n (k ∷ ks) b h = rw ((b.0).1 h.0) (stopped-batches n ks b.1 h.1)

-- From the start of a new pipeline on, if the context was never cancelled and all workers, of which
-- there is one, have stopped, then the queue is empty and every event that was ever queued has been
-- handed to the store, as often as it was queued.
pub drain_complete :
    {cfg : IngestorConfig} {p : Pipeline} {s t : System} {k : Worker} {ks : List Worker}
    → IsNew cfg p
    → IsStarted p s
    → (path : Reach s t) → t.canceled ≡ false
    → t.workers ≡ k ∷ ks
    → All IsStopped t.workers
    → (t.pipeline.queue.items ≡ [])
      × ((test : LogEvent → Bool) → count test (concat t.writes) ≡ count test (all_entered path))
unfolding count
drain_complete {cfg} {p} {s} {t} {k} {ks} new started path live some_worker stopped =
    (dry.1, written)
  where
    first : Orderly s
    first = record {
      left = λ _. rw (started.workers) (workers-LeftDry s.pipeline.queue p.cfg.workers);
    }

    dry : IsDry t.pipeline.queue
    dry =
        (rw some_worker at ((Reach-Orderly first path).left live)).0 ((rw some_worker at stopped).0)

    no_batch : batches t.workers ≡ []
    no_batch = stopped-batches _ t.workers (started-Inv new started path).workers stopped

    -- What is held is written, followed by nothing.
    written :
        (test : LogEvent → Bool) → count test (concat t.writes) ≡ count test (all_entered path)
    written test = omega (
      arith,
      started-conserves new started path test,
      count-append test (concat t.writes) (batches t.workers ++ t.pipeline.queue.items),
      ap (λ (xs : List LogEvent). count test (xs ++ t.pipeline.queue.items)) no_batch,
      ap (λ (xs : List LogEvent). count test xs) dry.1,
    )
