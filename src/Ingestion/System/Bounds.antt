-- ===== src/Ingestion/System/Bounds.antt =====
-- The sizes that hold in every reachable state.
use distributed_logs_aggrega.Base.{
  ℕ, ◌≤◌, ◌<◌, ◌≡◌, refl, ◌∙◌, inl, inr, true, List, [], ◌∷◌, length, length-append, All, All-get,
  All-set, arith, ap, subst, zero, suc,
}
use distributed_logs_aggrega.Base.Int.{ℤ, pos, negsuc}
use distributed_logs_aggrega.Base.Channel.{Channel, recv, gets, recv_gets, close_chan_lem}
use distributed_logs_aggrega.Config.{IngestorConfig}
use distributed_logs_aggrega.Models.{LogEvent}
use distributed_logs_aggrega.Ingestion.{Pipeline}
use distributed_logs_aggrega.Ingestion.Submit.Growth.{Grows, submit-Grows}
use distributed_logs_aggrega.Ingestion.Worker.{
  Driver, Local, Wake, context_done, received, channel_closed, ticked, round,
}
use distributed_logs_aggrega.Ingestion.Worker.Rounds.{
  limit, limit-pos, IsShort, IsBatch, Bounded, round-Bounded, round-queue,
}
use distributed_logs_aggrega.Ingestion.System.Started.{IsNew, IsStarted}
use distributed_logs_aggrega.Ingestion.System.{
  Worker, System, spawn, workers_of, resume, with_queue, Runs, Step, submits, stops, receives,
  drained, ticks, scrapes, observes, scraper_leaves, cancels, stop, Reach, here, next,
}

abbrev pub limit_of : Pipeline → ℕ
limit_of p = limit p.cfg.batch_size

-- The queue keeps within its capacity, each batch below the limit `n`, each write within it and
-- never empty; a worker that has stopped holds nothing.
pub record Inv (n : ℕ) (s : System) : Type 0 where
  pub limited : limit_of s.pipeline ≡ n
  pub fits : length s.pipeline.queue.items ≤ s.pipeline.queue.cap
  pub workers : All (λ k. IsShort n k.batch k.running) s.workers
  pub written : All (IsBatch n) s.writes

round-Inv :
    (n : ℕ) (w : Wake) (drv : Driver) (l : Local)
    → limit_of l.pipeline ≡ n
    → Bounded n l true
    → Bounded n (round w drv l).0 (round w drv l).1
round-Inv n w drv l e =
    subst (λ m. Bounded m l true → Bounded m (round w drv l).0 (round w drv l).1) e
      (round-Bounded w drv l l.pipeline.cfg.batch_size refl)

module _ (n : ℕ) where
  resume-Inv :
      (i : ℕ) (w : Wake) (drv : Driver) (k : Worker) (s : System)
      → Runs s i k
      → Inv n s
      → Inv n (resume i w drv k s)
  unfolding resume
  resume-Inv i w drv k s runs v =
      let short = All-get (λ k. IsShort n k.batch k.running) s.workers i k v.workers runs.0 in
      let b =
        round-Inv n w drv (record { batch = k.batch; pipeline = s.pipeline; writes = s.writes })
          v.limited (record { short = (short.0, λ h. cc); written = v.written }) in
      let (same, cfg) =
        round-queue w drv (record { batch = k.batch; pipeline = s.pipeline; writes = s.writes }) in
      record {
        limited = ap (λ (c : IngestorConfig). limit c.batch_size) cfg ∙ v.limited;
        fits = rw same (v.fits);
        workers = All-set (λ k. IsShort n k.batch k.running) s.workers i _ v.workers b.short;
        written = b.written;
      }

  submit-Inv :
      (ev : LogEvent) (s : System) (q : Pipeline)
      → Grows ev s.pipeline q
      → Inv n s
      → Inv n (record s { pipeline = q })
  submit-Inv ev s q g v = record {
    limited = ap (λ (c : IngestorConfig). limit c.batch_size) g.cfg ∙ v.limited;
    fits = elim g.queue [
      | inl e ↦ rw e (v.fits)
      | inr (_, room, e) ↦ rw e (omega (arith, length-append s.pipeline.queue.items (ev ∷ [])))
    ];
    workers = v.workers;
    written = v.written;
  }

  -- A queue that holds no more than before.
  with_queue-Inv :
      (ch : Channel LogEvent) (s : System)
      → length ch.items ≤ ch.cap
      → Inv n s
      → Inv n (with_queue ch s)
  with_queue-Inv ch s h v = record {
    limited = v.limited;
    fits = h;
    workers = v.workers;
    written = v.written;
  }

  received-fits :
      (ev : LogEvent) (ch ch' : Channel LogEvent)
      → length ch.items ≤ ch.cap
      → recv ch ≡ gets ev ch'
      → length ch'.items ≤ ch'.cap
  received-fits ev ch ch' h got =
      let (items, cap, _) = recv_gets ch ch' got in
      omega (arith, cap, ap (λ (xs : List LogEvent). length xs) items)

  -- Every step of a submission, a worker, the scraper, the context or `Stop` keeps the sizes.
  pub Step-Inv : {s t : System} → Step s t → Inv n s → Inv n t
  Step-Inv {s} (submits r ev e) v = rw e (submit-Inv _ s _ (submit-Grows r ev s.pipeline) v)
  Step-Inv {s} (stops i k drv runs c e) v = rw e (resume-Inv i context_done drv k s runs v)
  Step-Inv {s} (receives i k drv ev ch runs got e) v = rw e (
      resume-Inv i (received ev) drv k (with_queue ch s) runs
        (with_queue-Inv ch s (received-fits ev s.pipeline.queue ch v.fits got) v))
  Step-Inv {s} (drained i k drv runs c e) v = rw e (resume-Inv i channel_closed drv k s runs v)
  Step-Inv {s} (ticks i k drv runs e) v = rw e (resume-Inv i ticked drv k s runs v)
  Step-Inv {s} (scrapes b e) v =
      rw e (record { limited = v.limited; fits = v.fits; workers = v.workers; written = v.written })
  Step-Inv {s} (observes f e) v =
      rw e (record { limited = v.limited; fits = v.fits; workers = v.workers; written = v.written })
  Step-Inv {s} (scraper_leaves b c e) v =
      rw e (record { limited = v.limited; fits = v.fits; workers = v.workers; written = v.written })
  Step-Inv {s} (cancels e) v =
      rw e (record { limited = v.limited; fits = v.fits; workers = v.workers; written = v.written })
  Step-Inv {s} (stop ch h e) v =
      rw (e, (close_chan_lem s.pipeline.queue ch h).1) (with_queue-Inv _ s v.fits v)

  -- So it holds in every state that is reached from one where it holds.
  pub Reach-Inv : {s t : System} → Inv n s → Reach s t → Inv n t
  Reach-Inv v here = v
  Reach-Inv v (next path st) = Step-Inv st (Reach-Inv v path)

spawn-IsShort : (n k : ℕ) → 0 < n → All (λ k. IsShort n k.batch k.running) (spawn k)
unfolding spawn
spawn-IsShort n zero h = tt
spawn-IsShort n (suc k) h = ((h, λ _. refl), spawn-IsShort n k h)

workers_of-IsShort : (n : ℕ) (k : ℤ) → 0 < n → All (λ k. IsShort n k.batch k.running) (workers_of k)
unfolding workers_of
workers_of-IsShort n (pos k) h = spawn-IsShort n k h
workers_of-IsShort n (negsuc k) h = tt

-- From the start of a new pipeline on, whatever is submitted and whatever the workers, the scraper
-- and the shutdown do: the queue holds at most its capacity, a worker's batch between rounds less
-- than `BatchSize` (or 1, where that is not positive), and each bulk insert between 1 and
-- `BatchSize` events.
pub started-Inv :
    {cfg : IngestorConfig} {p : Pipeline} {s t : System}
    → IsNew cfg p
    → IsStarted p s
    → Reach s t
    → Inv (limit cfg.batch_size) t
started-Inv {cfg} {p} {s} new started path = Reach-Inv (limit cfg.batch_size) first path
  where
    first : Inv (limit cfg.batch_size) s
    first = record {
      limited = rw (started.pipeline, new.cfg_kept) refl;
      fits = rw (started.pipeline, new.nothing) (omega arith);
      workers =
          rw (started.workers) (workers_of-IsShort _ p.cfg.workers (limit-pos cfg.batch_size));
      written = rw (started.nothing) tt;
    }
