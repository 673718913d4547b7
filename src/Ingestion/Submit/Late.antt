-- ===== src/Ingestion/Submit/Late.antt =====
-- `Submit` and `SubmitBatch` after `Stop` has closed the queue.
use distributed_logs_aggrega.Base.{◌≡◌, refl, ap, Bool, true, List, ◌∷◌}
use distributed_logs_aggrega.Base.Channel.{try_send}
use distributed_logs_aggrega.Base.Outcome.{Outcome, panics}
use distributed_logs_aggrega.Models.{LogEvent}
use distributed_logs_aggrega.Models.Validation.{IsComplete, validate-none_iff}
use distributed_logs_aggrega.Ingestion.{Pipeline}
use distributed_logs_aggrega.Ingestion.Submit.{
  Reading, after_send, offer, deduplicate, submit, submit_batch,
}
use distributed_logs_aggrega.Ingestion.Submit.Cases.{
  stamped, checked, key-stamped, submit-deduplicate,
}

-- All that is left of an event that is submitted too late is its key.
abbrev pub late : Reading → LogEvent → Pipeline → Pipeline
late r ev p = record p { dedup = (checked r ev p).0 }

module _ (r : Reading) (ev : LogEvent) (p : Pipeline) (closed : p.queue.closed ≡ true)
    (c : IsComplete ev) (new : (checked r ev p).1 ≡ true) where
  deduplicate-late :
      deduplicate r.unix (stamped r ev) p ≡ (late r ev p, panics "send on closed channel")
  unfolding deduplicate offer after_send try_send
  deduplicate-late = rw key-stamped (rw (new, closed) refl)

  pub submit-late : submit r ev p ≡ (late r ev p, panics "send on closed channel")
  submit-late = rw (submit-deduplicate r ev p ((validate-none_iff r.utc ev).1 c)) deduplicate-late

  -- The panic ends the batch: the events behind are not looked at.
  pub submit_batch-late :
      (evs : List (Reading × LogEvent))
      → submit_batch ((r, ev) ∷ evs) p ≡ (late r ev p, panics "send on closed channel")
  unfolding submit_batch
  submit_batch-late evs =
      rw (submit-late, submit_batch)
        (ap (λ (t : Pipeline × Outcome Bool). (t.0, panics "send on closed channel")) submit-late)
