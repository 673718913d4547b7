-- ===== src/Cmd/Ingestor/Api/Takes.antt =====
-- What a request puts into the queue, and what its answer says about that.
use distributed_logs_aggrega.Base.{
  ℕ, suc, refl, Bool, true, false, List, [], ◌∷◌, length, All, eqb, ltb, ◌==◌, Bool-cases, inl, inr,
  arith, if◌then◌else◌,
}
use distributed_logs_aggrega.Base.Outcome.{Outcome, returns, panics}
use distributed_logs_aggrega.Http.{ingest_response, status_body}
use distributed_logs_aggrega.Models.{LogEvent, IngestRequest}
use distributed_logs_aggrega.Storage.Aggregate.{Doubles}
use distributed_logs_aggrega.Ingestion.{Pipeline}
use distributed_logs_aggrega.Ingestion.Submit.{Reading, submit}
use distributed_logs_aggrega.Ingestion.Submit.Keyless.{
  one_if, NoKey, Takes, submit-Takes, BatchTakes, submit_batch-Takes,
}
use distributed_logs_aggrega.Processor
use distributed_logs_aggrega.Processor.{
  Decoded, decoded, malformed, with_readings, ApiBody, ApiWriter, Served, ingest_events,
  ingest_reply, single_reply,
}

module _ (ds : Doubles) where
  -- How many events an answer reports as accepted.
  abbrev pub acked : List (ApiBody ds) → ℕ
  acked (ingest_response resp ∷ bs) = resp.accepted
  acked (status_body s ∷ bs) = if s == "accepted" then 1 else 0
  acked _ = 0

  -- A handler that panics has written nothing, and taken nothing.
  abbrev pub HandlerTakes : Pipeline → Served ds → Type 0
  HandlerTakes p (w, q, returns u) = Takes p q (acked w.body)
  HandlerTakes p (w, q, panics e) = Takes p q 0

  pub Takes-refl : (p : Pipeline) → Takes p p 0
  Takes-refl p = record { grown = omega arith; closed = refl; shut = λ c. refl }

  ingest_reply-Takes :
      (w : ApiWriter ds) (p : Pipeline) (x : Pipeline × Outcome (ℕ × ℕ))
      → BatchTakes p x
      → HandlerTakes p (ingest_reply ds w x)
  unfolding ingest_reply Processor.write_json
  ingest_reply-Takes w p (q, panics e) h = h.0
  ingest_reply-Takes w p (q, returns (ok, bad)) h = h.0

  with_readings-NoKey :
      (clock : ℕ → Reading) (i : ℕ) (evs : List LogEvent)
      → All NoKey evs
      → All (λ (x : Reading × LogEvent). NoKey x.1) (with_readings clock i evs)
  unfolding with_readings
  with_readings-NoKey clock i [] h = tt
  with_readings-NoKey clock i (ev ∷ evs) h = (h.0, with_readings-NoKey clock (suc i) evs h.1)

  ingest_events-Takes :
      (clock : ℕ → Reading) (evs : List LogEvent) (w : ApiWriter ds) (p : Pipeline)
      → All NoKey evs
      → HandlerTakes p (ingest_events ds clock evs w p)
  unfolding ingest_events Processor.write_json
  ingest_events-Takes clock evs w p h = elim (Bool-cases (eqb (length evs) 0)) [
    | inl none_sent ↦ rw none_sent (Takes-refl p)
    | inr some_sent ↦ elim (Bool-cases (ltb 10000 (length evs))) [
      | inl large ↦ rw (some_sent, large) (Takes-refl p)
      | inr fits ↦
          rw (some_sent, fits)
            (ingest_reply-Takes w p _ (
              submit_batch-Takes (with_readings clock 0 evs) p (with_readings-NoKey clock 0 evs h)))
    ]
  ]

  single_reply-Takes :
      (w : ApiWriter ds) (p : Pipeline) (x : Pipeline × Outcome Bool)
      → Takes p x.0 (one_if x.1)
      → HandlerTakes p (single_reply ds w x)
  unfolding single_reply Processor.write_json
  single_reply-Takes w p (q, panics e) h = h
  single_reply-Takes w p (q, returns true) h = h
  single_reply-Takes w p (q, returns false) h = h

  -- None of the events that a request would submit has a key.
  abbrev pub BatchKeyless : Decoded IngestRequest → Type 0
  BatchKeyless (malformed e) = Unit
  BatchKeyless (decoded req) = All NoKey req.events

  abbrev pub EventKeyless : Decoded LogEvent → Type 0
  EventKeyless (malformed e) = Unit
  EventKeyless (decoded ev) = NoKey ev

  pub batch-Takes :
      (clock : ℕ → Reading) (req : Decoded IngestRequest) (w : ApiWriter ds) (p : Pipeline)
      → BatchKeyless req
      → HandlerTakes p (Processor.ingest ds clock req w p)
  unfolding Processor.ingest Processor.write_json
  batch-Takes clock (malformed e) w p h = Takes-refl p
  batch-Takes clock (decoded req) w p h = ingest_events-Takes clock req.events w p h

  pub event-Takes :
      (now : Reading) (req : Decoded LogEvent) (w : ApiWriter ds) (p : Pipeline)
      → EventKeyless req
      → HandlerTakes p (Processor.ingest_single ds now req w p)
  unfolding Processor.ingest_single Processor.write_json
  event-Takes now (malformed e) w p h = Takes-refl p
  event-Takes now (decoded ev) w p h =
      single_reply-Takes w p (submit now ev p) (submit-Takes now ev p h)
