-- ===== src/Processor/Steps.antt =====
-- The handlers of internal/processor/handlers.go that submit, as steps of the whole pipeline.
use distributed_logs_aggrega.Base.{
  ℕ, ◌≡◌, refl, String, ◌⊎◌, Bool, true, false, List, [], ◌∷◌, length, eqb, ltb, Bool-cases, inl,
  inr,
}
use distributed_logs_aggrega.Base.Outcome.{Outcome, returns, panics}
use distributed_logs_aggrega.Models.{LogEvent, IngestRequest}
use distributed_logs_aggrega.Storage.Aggregate.{Doubles}
use distributed_logs_aggrega.Ingestion.{Pipeline}
use distributed_logs_aggrega.Ingestion.Submit.{Reading, submit, submit_batch}
use distributed_logs_aggrega.Ingestion.System.{System, submits, Reach, here, next}
use distributed_logs_aggrega.Ingestion.System.Shutdown.{Reach-cons}
use distributed_logs_aggrega.Processor.{
  Decoded, decoded, malformed, with_readings, ApiWriter, Served, ingest, ingest_events,
  ingest_reply, ingest_single, single_reply,
}

abbrev pub at_pipeline : System → Pipeline → System
at_pipeline s p = record s { pipeline = p }

abbrev submitted : Reading → LogEvent → System → System
submitted r ev s = at_pipeline s (submit r ev s.pipeline).0

ended : {A : Type 0} (o : Outcome A) → ((a : A) × (o ≡ returns a)) ⊎ ((e : String) × (o ≡ panics e))
ended (returns a) = inl (a, refl)
ended (panics e) = inr (e, refl)

batch_steps :
    (evs : List (Reading × LogEvent)) (s : System)
    → Reach s (at_pipeline s (submit_batch evs s.pipeline).0)
unfolding submit_batch
batch_steps [] s = here
batch_steps ((r, ev) ∷ evs) s = elim (ended (submit r ev s.pipeline).1) [
  | inl (b, e) ↦
      rw (e, submit_batch) (Reach-cons (submits r ev refl) (batch_steps evs (submitted r ev s)))
  | inr (x, e) ↦ rw (e, submit_batch) (next here (submits r ev refl))
]

module _ (ds : Doubles) where
  -- How a request leaves the pipeline, whatever is answered.
  abbrev pub Stepped : System → Served ds → Type 0
  Stepped s (w, p, o) = Reach s (at_pipeline s p)

  ingest_reply-Stepped :
      (w : ApiWriter ds) (s : System) (x : Pipeline × Outcome (ℕ × ℕ))
      → Reach s (at_pipeline s x.0)
      → Stepped s (ingest_reply ds w x)
  unfolding ingest_reply
  ingest_reply-Stepped w s (p, panics e) h = h
  ingest_reply-Stepped w s (p, returns (a, r)) h = h

  single_reply-Stepped :
      (w : ApiWriter ds) (s : System) (x : Pipeline × Outcome Bool)
      → Reach s (at_pipeline s x.0)
      → Stepped s (single_reply ds w x)
  unfolding single_reply
  single_reply-Stepped w s (p, panics e) h = h
  single_reply-Stepped w s (p, returns true) h = h
  single_reply-Stepped w s (p, returns false) h = h

  events-Stepped :
      (clock : ℕ → Reading) (events : List LogEvent) (w : ApiWriter ds) (s : System)
      → Stepped s (ingest_events ds clock events w s.pipeline)
  unfolding ingest_events
  events-Stepped clock events w s = elim (Bool-cases (eqb (length events) 0)) [
    | inl none_sent ↦ rw none_sent here
    | inr some_sent ↦ elim (Bool-cases (ltb 10000 (length events))) [
      | inl large ↦ rw (some_sent, large) here
      | inr fits ↦
          rw (some_sent, fits)
            (ingest_reply-Stepped w s _ (batch_steps (with_readings clock 0 events) s))
    ]
  ]

  pub ingest-Stepped :
      (clock : ℕ → Reading) (req : Decoded IngestRequest) (w : ApiWriter ds) (s : System)
      → Stepped s (ingest ds clock req w s.pipeline)
  unfolding ingest
  ingest-Stepped clock (malformed e) w s = here
  ingest-Stepped clock (decoded req) w s = events-Stepped clock req.events w s

  pub single-Stepped :
      (now : Reading) (req : Decoded LogEvent) (w : ApiWriter ds) (s : System)
      → Stepped s (ingest_single ds now req w s.pipeline)
  unfolding ingest_single
  single-Stepped now (malformed e) w s = here
  single-Stepped now (decoded ev) w s =
      single_reply-Stepped w s (submit now ev s.pipeline) (next here (submits now ev refl))
