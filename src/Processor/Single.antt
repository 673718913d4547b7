-- ===== src/Processor/Single.antt =====
-- What `IngestSingle` answers.
use distributed_logs_aggrega.Base.{◌≡◌, refl, ap, ◌⊎◌, inl, inr, Bool, true, false}
use distributed_logs_aggrega.Base.Outcome.{returns}
use distributed_logs_aggrega.Http.{error_body, status_body}
use distributed_logs_aggrega.Models.{LogEvent}
use distributed_logs_aggrega.Storage.Aggregate.{Doubles}
use distributed_logs_aggrega.Ingestion.{Pipeline}
use distributed_logs_aggrega.Ingestion.Submit.{Reading, submit, reject}
use distributed_logs_aggrega.Ingestion.Submit.Cases.{
  Ends, refused, duplicate, queued, overflows, submit-Ends,
}
use distributed_logs_aggrega.Ingestion.Submit.Verdict.{Accepted, submit-true_iff}
use distributed_logs_aggrega.Processor.{
  Decoded, decoded, malformed, invalid_json, reply, single_reply, ingest_single, ApiWriter, Served,
}

-- On an open queue `Submit` returns.
submit-returns :
    (r : Reading) (ev : LogEvent) (p : Pipeline)
    → Ends r ev p
    → (b : Bool) × ((submit r ev p).1 ≡ returns b)
unfolding reject
submit-returns r ev p (refused n e) = (false, rw e refl)
submit-returns r ev p (duplicate c seen e) = (true, rw e refl)
submit-returns r ev p (queued c new room e) = (true, rw e refl)
submit-returns r ev p (overflows c new full e) = (false, rw e refl)

module _ (ds : Doubles) where
  -- How a decoded request ends.
  abbrev pub Answered : Reading → LogEvent → ApiWriter ds → Pipeline → Served ds → Type 0
  Answered r ev w p out =
      (Accepted r ev p × (out ≡ reply ds w 202 (status_body "accepted") (submit r ev p).0))
      ⊎ ((¬ Accepted r ev p) × (out ≡ reply ds w 503 (status_body "rejected") (submit r ev p).0))

  abbrev pub SingleReplies :
      Reading → Decoded LogEvent → ApiWriter ds → Pipeline → Served ds → Type 0
  SingleReplies r (malformed e) w p out = out ≡ reply ds w 400 (error_body (invalid_json e)) p
  SingleReplies r (decoded ev) w p out = Answered r ev w p out

  single_reply-Answered :
      (r : Reading) (ev : LogEvent) (w : ApiWriter ds) (p : Pipeline) (b : Bool)
      → p.queue.closed ≡ false
      → (submit r ev p).1 ≡ returns b
      → Answered r ev w p (single_reply ds w (submit r ev p))
  unfolding single_reply
  single_reply-Answered r ev w p true is_open said = inl (
    (submit-true_iff r ev p is_open).0 said,
    ap (λ o. single_reply ds w ((submit r ev p).0, o)) said,
  )
  single_reply-Answered r ev w p false is_open said = inr (
    (λ a. cc (said, (submit-true_iff r ev p is_open).1 a)),
    ap (λ o. single_reply ds w ((submit r ev p).0, o)) said,
  )

  -- On an open pipeline `IngestSingle` answers a malformed request with 400 and leaves the pipeline
  -- alone; an event with 202 exactly if it is complete and either a duplicate or one for which there
  -- is room, and with 503 otherwise, the pipeline being as `Submit` leaves it.
  pub ingest_single-SingleReplies :
      (r : Reading) (body : Decoded LogEvent) (w : ApiWriter ds) (p : Pipeline)
      → p.queue.closed ≡ false
      → SingleReplies r body w p (ingest_single ds r body w p)
  unfolding ingest_single
  ingest_single-SingleReplies r (malformed e) w p is_open = refl
  ingest_single-SingleReplies r (decoded ev) w p is_open =
      let (b, said) = submit-returns r ev p (submit-Ends r ev p is_open) in
      single_reply-Answered r ev w p b is_open said
