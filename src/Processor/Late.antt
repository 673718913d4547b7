-- ===== src/Processor/Late.antt =====
-- Requests that submit after `Stop` has closed the queue.
use distributed_logs_aggrega.Base.{
  ℕ, suc, ◌<◌, ◌≡◌, refl, arith, true, false, some, List, ◌∷◌, length, ltb, eqb, ◌==◌, subst,
}
use distributed_logs_aggrega.Base.Outcome.{returns, panics}
use distributed_logs_aggrega.Metrics.{Collectors}
use distributed_logs_aggrega.Models.{LogEvent}
use distributed_logs_aggrega.Models.Validation.{IsComplete}
use distributed_logs_aggrega.Http.{Request, Handler, new_writer}
use distributed_logs_aggrega.Middleware.{api, cors_headers}
use distributed_logs_aggrega.Middleware.Requests.{Ended, api-Ended}
use distributed_logs_aggrega.Storage.Aggregate.{Doubles, Stats}
use distributed_logs_aggrega.Storage.Buckets.{Bucket}
use distributed_logs_aggrega.Ingestion.{Pipeline}
use distributed_logs_aggrega.Ingestion.Submit.{Reading}
use distributed_logs_aggrega.Ingestion.Submit.Cases.{checked}
use distributed_logs_aggrega.Ingestion.Submit.Late.{late, submit-late, submit_batch-late}
use distributed_logs_aggrega.Processor.{
  decoded, with_readings, ApiWriter, Served, ingest, ingest_events, ingest_reply, ingest_single,
  single_reply,
}

size_test : (n : ℕ) → n < 10000 → (eqb (suc n) 0 ≡ false) × (ltb 10000 (suc n) ≡ false)
size_test n h = ground (arith, h)

module _ (ds : Doubles) where
  abbrev pub single_handler : Reading → LogEvent → Handler (Stats ds) Bucket Pipeline
  single_handler now ev r w p = ingest_single ds now (decoded ev) w p

  abbrev pub batch_handler : (ℕ → Reading) → List LogEvent → Handler (Stats ds) Bucket Pipeline
  batch_handler clock events r w p = ingest ds clock (decoded (record { events = events })) w p

module _ (ds : Doubles) (on_collectors : (Collectors → Collectors) → Pipeline → Pipeline) where
  abbrev pub through : ℕ → Handler (Stats ds) Bucket Pipeline → Request → Pipeline → Served ds
  through elapsed next r p =
      api (Stats ds) Bucket Pipeline on_collectors elapsed next r (new_writer (Stats ds) Bucket) p

  -- The request is answered with 500, and leaves the key of the event and nothing else.
  pub record Lost (now : Reading) (ev : LogEvent) (p : Pipeline) (out : Served ds) : Type 0 where
    pub kept : out.1 ≡ late now ev p
    pub replied : out.2 ≡ returns tt
    pub status : out.0.status ≡ some 500

  panics-Lost :
      (elapsed : ℕ) (next : Handler (Stats ds) Bucket Pipeline) (r : Request) (now : Reading)
      (ev : LogEvent) (p : Pipeline)
      → (r.method == "OPTIONS") ≡ false
      → ((w : ApiWriter ds) → next r w p ≡ (w, late now ev p, panics "send on closed channel"))
      → Lost now ev p (through elapsed next r p)
  panics-Lost elapsed next r now ev p posts h =
      let w : ApiWriter ds =
        cors_headers (Stats ds) Bucket Pipeline on_collectors (new_writer (Stats ds) Bucket) in
      let (kept, replied, status) =
        subst
          (λ t.
            Ended (Stats ds) Bucket Pipeline on_collectors elapsed r t (through elapsed next r p))
          (h w) ((api-Ended (Stats ds) Bucket Pipeline on_collectors elapsed next r p).1 posts) in
      record { kept = kept; replied = replied; status = status }

  single_panics :
      (now : Reading) (ev : LogEvent) (r : Request) (p : Pipeline)
      → p.queue.closed ≡ true
      → IsComplete ev
      → (checked now ev p).1 ≡ true
      → (w : ApiWriter ds)
      → single_handler ds now ev r w p ≡ (w, late now ev p, panics "send on closed channel")
  unfolding ingest_single single_reply
  single_panics now ev r p closed c new w = rw (submit-late now ev p closed c new) refl

  batch_panics :
      (clock : ℕ → Reading) (ev : LogEvent) (evs : List LogEvent) (r : Request) (p : Pipeline)
      → p.queue.closed ≡ true
      → IsComplete ev
      → (checked (clock 0) ev p).1 ≡ true
      → length evs < 10000
      → (w : ApiWriter ds)
      → batch_handler ds clock (ev ∷ evs) r w p
        ≡ (w, late (clock 0) ev p, panics "send on closed channel")
  unfolding ingest ingest_events ingest_reply with_readings
  batch_panics clock ev evs r p closed c new few w =
      let (some_events, fits) = size_test (length evs) few in
      rw (some_events, fits)
        (rw (submit_batch-late (clock 0) ev p closed c new (with_readings clock 1 evs)) refl)

  -- Past the queue's closing, a complete event with a new key in a request of its own, or at the head
  -- of a batch of at most 10000, makes the handler panic. Through the middleware the request is
  -- answered with 500; the event is not queued and no counter changes, but its key is stored, and the
  -- events behind it are not looked at.
  pub late_requests :
      (elapsed : ℕ) (clock : ℕ → Reading) (ev : LogEvent) (evs : List LogEvent) (r : Request)
      (p : Pipeline)
      → (r.method == "OPTIONS") ≡ false
      → p.queue.closed ≡ true
      → IsComplete ev
      → (checked (clock 0) ev p).1 ≡ true
      → length evs < 10000
      → Lost (clock 0) ev p (through elapsed (single_handler ds (clock 0) ev) r p)
        × Lost (clock 0) ev p (through elapsed (batch_handler ds clock (ev ∷ evs)) r p)
  late_requests elapsed clock ev evs r p posts closed c new few = (
    panics-Lost elapsed _ r (clock 0) ev p posts (single_panics (clock 0) ev r p closed c new),
    panics-Lost elapsed _ r (clock 0) ev p posts (batch_panics clock ev evs r p closed c new few),
  )
