-- ===== src/Ingestion/Submit/Retry.antt =====
-- A retry after a drop.
use distributed_logs_aggrega.Base.{
  ℕ, ◌+◌, ◌≤◌, ◌≡◌, ◌≢◌, refl, true, false, String, List, length, All, arith,
}
use distributed_logs_aggrega.Base.GoMap.{UniqueKeys}
use distributed_logs_aggrega.Base.Outcome.{returns}
use distributed_logs_aggrega.Models.{LogEvent}
use distributed_logs_aggrega.Models.Validation.{IsComplete, validate-none_iff}
use distributed_logs_aggrega.Ingestion.{Pipeline}
use distributed_logs_aggrega.Ingestion.Dedup.Once.{run_checks, passes_once}
use distributed_logs_aggrega.Ingestion.Submit.{Reading, submit}
use distributed_logs_aggrega.Ingestion.Submit.Cases.{
  Ends, refused, duplicate, queued, overflows, checked, submit-Ends, submit-deduplicate,
  deduplicate-duplicate,
}

-- A dropped submission leaves the queue alone and the key stored.
dropped_lem :
    (r : Reading) (ev : LogEvent) (p : Pipeline)
    → Ends r ev p
    → IsComplete ev
    → (checked r ev p).1 ≡ true
    → p.queue.cap ≤ length p.queue.items
    → ((submit r ev p).1 ≡ returns false)
      × ((submit r ev p).0.queue ≡ p.queue)
      × ((submit r ev p).0.dedup ≡ (checked r ev p).0)
dropped_lem r ev p (refused no_event e) c new full = absurd (no_event c)
dropped_lem r ev p (duplicate _ seen e) c new full = cc
dropped_lem r ev p (queued _ _ room e) c new full = absurd (omega arith)
dropped_lem r ev p (overflows _ _ _ e) c new full = rw e (refl, refl, refl)

duplicate_lem :
    (r : Reading) (ev : LogEvent) (p : Pipeline)
    → IsComplete ev
    → (checked r ev p).1 ≡ false
    → ((submit r ev p).1 ≡ returns true) × ((submit r ev p).0.queue ≡ p.queue)
duplicate_lem r ev p c seen =
    rw (submit-deduplicate r ev p ((validate-none_iff r.utc ev).1 c))
      (rw (deduplicate-duplicate r ev p seen) (refl, refl))

module _ (r r' : Reading) (ev : LogEvent) (p q : Pipeline) (cs : List (String × ℕ)) where
  -- A complete event with a new key that meets a full queue is refused, and its key is kept. A retry
  -- within 300 seconds is reported as accepted and queues nothing, whatever was checked in between
  -- and however much room the queue has by then.
  pub retry_lost :
      p.queue.closed ≡ false
      → IsComplete ev
      → ev.idempotency_key ≢ ""
      → UniqueKeys p.dedup.dedupe
      → (checked r ev p).1 ≡ true
      → p.queue.cap ≤ length p.queue.items
      → q.dedup ≡ run_checks cs (submit r ev p).0.dedup
      → All (λ c. c.1 ≤ r.unix + 300) cs
      → r'.unix ≤ r.unix + 300
      → ((submit r ev p).1 ≡ returns false)
        × ((submit r ev p).0.queue ≡ p.queue)
        × ((submit r' ev q).1 ≡ returns true)
        × ((submit r' ev q).0.queue ≡ q.queue)
  retry_lost is_open c keyed u new full between times soon =
      let (said, same, kept) = dropped_lem r ev p (submit-Ends r ev p is_open) c new full in
      let seen : (checked r' ev q).1 ≡ false =
        rw (between, kept)
          (passes_once ev.idempotency_key r.unix r'.unix cs p.dedup keyed u new times soon) in
      let (said', same') = duplicate_lem r' ev q c seen in (said, same, said', same')
