-- ===== src/Processor/Ingest.antt =====
-- What `Ingest` answers.
use distributed_logs_aggrega.Base.{
  ℕ, suc, ◌+◌, ◌≤◌, ◌<◌, ◌≡◌, ◌≢◌, refl, ap, subst, ◌∙◌, true, false, List, [], ◌∷◌, length, map,
  arith, ltb, eqb,
}
use distributed_logs_aggrega.Base.Outcome.{returns}
use distributed_logs_aggrega.Http.{error_body, ingest_response}
use distributed_logs_aggrega.Models.{LogEvent, IngestRequest}
use distributed_logs_aggrega.Storage.Aggregate.{Doubles}
use distributed_logs_aggrega.Ingestion.{Pipeline}
use distributed_logs_aggrega.Ingestion.Submit.{Reading, submit_batch}
use distributed_logs_aggrega.Ingestion.Submit.Accounting.{
  Accounts, InRange, ok_of, bad_of, submit_batch-Accounts,
}
use distributed_logs_aggrega.Processor.{
  Decoded, decoded, malformed, with_readings, invalid_json, reply, batch_status, ingest_reply,
  ingest_events, ingest, ApiWriter, Served,
}

length-with_readings :
    (clock : ℕ → Reading) (i : ℕ) (evs : List LogEvent)
    → length (with_readings clock i evs) ≡ length evs
unfolding with_readings
length-with_readings clock i [] = refl
length-with_readings clock i (ev ∷ evs) = ap suc (length-with_readings clock (suc i) evs)

events-with_readings :
    (clock : ℕ → Reading) (i : ℕ) (evs : List LogEvent)
    → map (λ (x : Reading × LogEvent). x.1) (with_readings clock i evs) ≡ evs
unfolding with_readings
events-with_readings clock i [] = refl
events-with_readings clock i (ev ∷ evs) =
    ap (λ (xs : List LogEvent). ev ∷ xs) (events-with_readings clock (suc i) evs)

is_zero_test : (n : ℕ) → n ≡ 0 → eqb n 0 ≡ true
is_zero_test n h = ground arith

non_zero_test : (n : ℕ) → n ≢ 0 → eqb n 0 ≡ false
non_zero_test n h = ground arith

over_test : (n : ℕ) → 10000 < n → (eqb n 0 ≡ false) × (ltb 10000 n ≡ true)
over_test n h = ground arith

within_test : (n : ℕ) → n ≤ 10000 → ltb 10000 n ≡ false
within_test n h = ground arith

module _ (ds : Doubles) where
  -- A batch that is let in: the events go to `SubmitBatch`, all and in their order, and the answer has
  -- its two numbers; the status is 503 just if no event was accepted.
  pub record Admitted (events : List LogEvent) (w : ApiWriter ds) (p : Pipeline) (out : Served ds)
      : Type 0 where
    pub sent : List (Reading × LogEvent)
    pub accepted : ℕ
    pub rejected : ℕ
    pub status : ℕ
    pub after : Pipeline
    pub same : map (λ x. x.1) sent ≡ events
    pub submitted : submit_batch sent p ≡ (after, returns (accepted, rejected))
    pub total : accepted + rejected ≡ length events
    pub refused : accepted ≡ 0 → status ≡ 503
    pub welcomed : accepted ≢ 0 → status ≡ 202
    pub answered :
        out
        ≡ reply ds w status
            (ingest_response (record { accepted = accepted; rejected = rejected; errors = [] }))
            after
    pub accounts : Accounts sent p after (returns (accepted, rejected))

  -- The four ways in which a request ends.
  abbrev pub Replies : Decoded IngestRequest → ApiWriter ds → Pipeline → Served ds → Type 0
  Replies (malformed e) w p out = out ≡ reply ds w 400 (error_body (invalid_json e)) p
  Replies (decoded req) w p out =
      (length req.events ≡ 0 → out ≡ reply ds w 400 (error_body "events array is required") p)
      × (10000 < length req.events
          → out ≡ reply ds w 413 (error_body "batch too large (max 10000)") p)
      × (length req.events ≢ 0 → length req.events ≤ 10000 → Admitted req.events w p out)

  admitted :
      (clock : ℕ → Reading) (events : List LogEvent) (w : ApiWriter ds) (p : Pipeline)
      → p.queue.closed ≡ false
      → InRange p
      → length events ≢ 0
      → length events ≤ 10000
      → Admitted events w p (ingest_events ds clock events w p)
  unfolding ingest_events ingest_reply
  admitted clock events w p is_open h some_events few =
      let sent = with_readings clock 0 events in
      let after = (submit_batch sent p).0 in
      let a = submit_batch-Accounts sent p is_open h in
      record {
        sent = sent;
        accepted = ok_of a.kinds;
        rejected = bad_of a.kinds;
        status = batch_status ds (ok_of a.kinds) (bad_of a.kinds);
        after = after;
        same = events-with_readings clock 0 events;
        submitted = ap (λ t. (after, t)) a.returned;
        total = a.total ∙ length-with_readings clock 0 events;
        refused = λ z. ground (arith, a.total, length-with_readings clock 0 events);
        welcomed = λ z. ground arith;
        answered =
            rw (non_zero_test (length events) some_events, within_test (length events) few)
              (ap (λ t. ingest_reply ds w (after, t)) a.returned);
        accounts = subst (λ t. Accounts sent p after t) a.returned a;
      }

  -- On an open pipeline `Ingest` answers a malformed request and one without events with 400, and one
  -- of more than 10000 events with 413, and all these leave the pipeline alone. Any other goes to
  -- `SubmitBatch` with all its events in their order, is answered with the two numbers that come back,
  -- which add up to the number of events, with 503 if no event was accepted and 202 otherwise, and
  -- leaves the pipeline as `SubmitBatch` does.
  pub ingest-Replies :
      (clock : ℕ → Reading) (body : Decoded IngestRequest) (w : ApiWriter ds) (p : Pipeline)
      → p.queue.closed ≡ false
      → InRange p
      → Replies body w p (ingest ds clock body w p)
  unfolding ingest ingest_events
  ingest-Replies clock (malformed e) w p is_open h = refl
  ingest-Replies clock (decoded req) w p is_open h = (
    (λ z. rw (is_zero_test (length req.events) z) refl),
    (λ z. rw ((over_test (length req.events) z).0, (over_test (length req.events) z).1) refl),
    (λ some_events few. admitted clock req.events w p is_open h some_events few),
  )
