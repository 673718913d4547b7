-- ===== src/Ingestion/System/Refinement.antt =====
-- The pipeline implements the buffer of Ingestion/Buffer.
use mathlib.Core.Path.{ap₂, fun_ext}
use distributed_logs_aggrega.Base.{
  ℕ, ◌+◌, ◌≡◌, refl, ap, ◌∙◌, ◌⊎◌, inl, inr, Bool, List, [], ◌∷◌, ◌++◌, All, count, count-append,
  count-concat, concat, drop-length, drop-length-append, arith,
}
use distributed_logs_aggrega.Models.{LogEvent}
use distributed_logs_aggrega.Config.{IngestorConfig}
use distributed_logs_aggrega.Ingestion.{Pipeline}
use distributed_logs_aggrega.Ingestion.Buffer.{
  bag_of, Buffer, empty, Move, idles, admits, delivers, Moves, none_yet, and_then,
}
use distributed_logs_aggrega.Ingestion.Submit.{Reading, submit}
use distributed_logs_aggrega.Ingestion.Submit.Cases.{stamped}
use distributed_logs_aggrega.Ingestion.Submit.Growth.{submit-Grows}
use distributed_logs_aggrega.Ingestion.Worker.{
  Driver, Local, Wake, context_done, received, channel_closed, ticked, flush, append, round,
}
use distributed_logs_aggrega.Ingestion.Worker.Rounds.{
  flush-Flushes, appended, append-cases, IsBatch, limit,
}
use distributed_logs_aggrega.Ingestion.System.{
  System, resume, Step, submits, stops, receives, drained, ticks, scrapes, observes, scraper_leaves,
  cancels, stop, Reach, here, next,
}
use distributed_logs_aggrega.Ingestion.System.Started.{IsNew, IsStarted}
use distributed_logs_aggrega.Ingestion.System.Bounds.{started-Inv}
use distributed_logs_aggrega.Ingestion.System.Conservation.{
  batches, enters, entered, all_entered, tally, tally-Step, batches-workers_of,
}

abbrev pub waiting : System → List LogEvent
waiting s = batches s.workers ++ s.pipeline.queue.items

abbrev pub view : System → Buffer
view s = record { waiting = bag_of (waiting s); delivered = bag_of (concat s.writes) }

-- What a step hands to the store: nothing, or one batch.
abbrev Writes : List (List LogEvent) → List (List LogEvent) → Type 0
Writes before after = (after ≡ before) ⊎ ((es : List LogEvent) × (after ≡ before ++ es ∷ []))

flush-Writes : (drv : Driver) (l : Local) → Writes l.writes (flush drv l).writes
flush-Writes drv l = elim (flush-Flushes drv l).written [
  | inl (e, w) ↦ inl w
  | inr (b, w) ↦ inr (l.batch, w)
]

append-Writes :
    (drv : Driver) (ev : LogEvent) (l : Local) → Writes l.writes (append drv ev l).writes
append-Writes drv ev l = elim (append-cases drv ev l) [
  | inl e ↦ rw e (flush-Writes drv (appended ev l))
  | inr (e, _) ↦ inl (rw e refl)
]

round-Writes : (w : Wake) (drv : Driver) (l : Local) → Writes l.writes (round w drv l).0.writes
unfolding round
round-Writes context_done drv l = flush-Writes drv l
round-Writes channel_closed drv l = flush-Writes drv l
round-Writes ticked drv l = flush-Writes drv l
round-Writes (received ev) drv l = append-Writes drv ev l

Step-Writes : {s t : System} → Step s t → Writes s.writes t.writes
unfolding resume
Step-Writes {s} (submits r ev e) = rw e (inl refl)
Step-Writes {s} (stops i k drv runs c e) = rw e (round-Writes context_done drv _)
Step-Writes {s} (receives i k drv ev ch runs got e) = rw e (round-Writes (received ev) drv _)
Step-Writes {s} (drained i k drv runs c e) = rw e (round-Writes channel_closed drv _)
Step-Writes {s} (ticks i k drv runs e) = rw e (round-Writes ticked drv _)
Step-Writes {s} (scrapes b e) = rw e (inl refl)
Step-Writes {s} (observes f e) = rw e (inl refl)
Step-Writes {s} (scraper_leaves b c e) = rw e (inl refl)
Step-Writes {s} (cancels e) = rw e (inl refl)
Step-Writes {s} (stop ch h e) = rw e (inl refl)

count-waiting :
    (p : LogEvent → Bool) (s : System) → count p (waiting s) + count p (concat s.writes) ≡ tally p s
count-waiting p s = omega (arith, count-append p (batches s.workers) s.pipeline.queue.items)

same_writes :
    (s t : System) (p : LogEvent → Bool)
    → t.writes ≡ s.writes
    → count p (concat t.writes) ≡ count p (concat s.writes)
same_writes s t p w = ap (λ (ws : List (List LogEvent)). count p (concat ws)) w

delivered_more :
    (s t : System) (es : List LogEvent) (p : LogEvent → Bool)
    → t.writes ≡ s.writes ++ es ∷ []
    → count p (concat t.writes) ≡ count p (concat s.writes) + count p es
delivered_more s t es p w =
    ap (λ (ws : List (List LogEvent)). count p (concat ws)) w ∙ count-concat p s.writes es

buffer_ext :
    {b c : Buffer}
    → ((p : LogEvent → Bool) → c.waiting p ≡ b.waiting p)
    → ((p : LogEvent → Bool) → c.delivered p ≡ b.delivered p)
    → c ≡ b
buffer_ext {b} {c} h k = ap₂ (λ w d. record { waiting = w; delivered = d }) (fun_ext h) (fun_ext k)

All-last :
    {n : ℕ} (ws : List (List LogEvent)) (es : List LogEvent)
    → All (IsBatch n) (ws ++ es ∷ [])
    → IsBatch n es
All-last [] es h = h.0
All-last (x ∷ ws) es h = All-last ws es h.1

-- Nothing enters the queue: the step idles or delivers.
silent-Move :
    {n : ℕ} {s t : System} (st : Step s t)
    → entered st ≡ []
    → All (IsBatch n) t.writes
    → Move n (entered st) (view s) (view t)
unfolding count
silent-Move {n} {s} {t} st quiet short = elim (Step-Writes st) [
  | inl w ↦ idles quiet (
      buffer_ext
        (λ p. omega (
          arith,
          tally-Step p st,
          ap (λ (xs : List LogEvent). count p xs) quiet,
          count-waiting p s,
          count-waiting p t,
          same_writes s t p w,
        ))
        (λ p. same_writes s t p w))
  | inr (es, w) ↦
      let b = All-last s.writes es (rw w at short) in
      delivers es quiet b.0 b.1
        (fun_ext (λ p. omega (
          arith,
          tally-Step p st,
          ap (λ (xs : List LogEvent). count p xs) quiet,
          count-waiting p s,
          count-waiting p t,
          delivered_more s t es p w,
        )))
        (fun_ext (λ p. delivered_more s t es p w))
]

submit-Move :
    {n : ℕ} (s : System) (r : Reading) (ev : LogEvent)
    → Move n
        (enters r ev s.pipeline)
        (view s)
        (view (record s { pipeline = (submit r ev s.pipeline).0 }))
unfolding count
submit-Move s r ev = elim (submit-Grows r ev s.pipeline).queue [
  | inl same ↦
      idles (rw same (drop-length s.pipeline.queue.items))
        (buffer_ext (λ p. rw same refl) (λ p. refl))
  | inr (_, _, more) ↦
      admits (stamped r ev)
        (rw more (drop-length-append s.pipeline.queue.items (stamped r ev ∷ [])))
        (buffer_ext
          (λ p. rw more (
            omega (
              arith,
              count-append p (batches s.workers) (s.pipeline.queue.items ++ stamped r ev ∷ []),
              count-append p (batches s.workers) s.pipeline.queue.items,
              count-append p s.pipeline.queue.items (stamped r ev ∷ []),
            )))
          (λ p. refl))
]

Step-Move :
    {n : ℕ} {s t : System} (st : Step s t)
    → All (IsBatch n) t.writes
    → Move n (entered st) (view s) (view t)
Step-Move {s} (submits r ev e) h = rw e (submit-Move s r ev)
Step-Move {s} (stops i k drv runs c e) h = silent-Move {s = s} (stops i k drv runs c e) refl h
Step-Move {s} (receives i k drv ev ch runs got e) h =
    silent-Move {s = s} (receives i k drv ev ch runs got e) refl h
Step-Move {s} (drained i k drv runs c e) h = silent-Move {s = s} (drained i k drv runs c e) refl h
Step-Move {s} (ticks i k drv runs e) h = silent-Move {s = s} (ticks i k drv runs e) refl h
Step-Move {s} (scrapes b e) h = silent-Move {s = s} (scrapes b e) refl h
Step-Move {s} (observes f e) h = silent-Move {s = s} (observes f e) refl h
Step-Move {s} (scraper_leaves b c e) h = silent-Move {s = s} (scraper_leaves b c e) refl h
Step-Move {s} (cancels e) h = silent-Move {s = s} (cancels e) refl h
Step-Move {s} (stop ch c e) h = silent-Move {s = s} (stop ch c e) refl h

started-empty :
    {cfg : IngestorConfig} {p : Pipeline} {s : System}
    → IsNew cfg p
    → IsStarted p s
    → view s ≡ empty
unfolding count
started-empty {p} {s} new started =
    buffer_ext
      (λ test.
        rw (started.workers, batches-workers_of p.cfg.workers, started.pipeline, new.nothing) refl)
      (λ test. rw (started.nothing) refl)

started-Moves :
    {cfg : IngestorConfig} {p : Pipeline} {s t : System}
    → IsNew cfg p
    → IsStarted p s
    → (path : Reach s t) → Moves (limit cfg.batch_size) empty (all_entered path) (view t)
unfolding all_entered
started-Moves new started here = rw (started-empty new started) none_yet
started-Moves new started (next path st) =
    and_then (started-Moves new started path)
      (Step-Move st (started-Inv new started (next path st)).written)

-- The pipeline, from its start on any interleaving of submissions, workers, the scraper and a shutdown,
-- is simulated by the abstract buffer from empty, step by step: what a submission puts into the queue
-- is admitted, and any other step hands one batch of 1 to `BatchSize` waiting events to the store, which
-- is delivered, or does nothing; so a run is one of the buffer with exactly the events that were queued.
pub started_refines :
    {cfg : IngestorConfig} {p : Pipeline} {s t u : System}
    → IsNew cfg p
    → IsStarted p s
    → (path : Reach s t) (st : Step t u)
    → Moves (limit cfg.batch_size) empty (all_entered path) (view t)
      × Move (limit cfg.batch_size) (entered st) (view t) (view u)
started_refines new started path st =
    (started-Moves new started path, Step-Move st (started-Inv new started (next path st)).written)
