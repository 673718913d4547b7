-- ===== src/Ingestion/Submit/Memory.antt =====
-- What a submission does to the memory for keys, and when it can queue its event.
use distributed_logs_aggrega.Base.{◌≡◌, refl, inl, inr, Bool, true, false, Bool-cases, Option-cases}
use distributed_logs_aggrega.Base.Channel.{Channel}
use distributed_logs_aggrega.Base.Outcome.{Outcome, returns, panics}
use distributed_logs_aggrega.Models.{LogEvent, validate}
use distributed_logs_aggrega.Ingestion.{Pipeline}
use distributed_logs_aggrega.Ingestion.Submit.{
  Reading, reject, after_send, offer, deduplicate, submit,
}
use distributed_logs_aggrega.Ingestion.Submit.Cases.{
  stamped, checked, key-stamped, submit-deduplicate, submit-reject, deduplicate-duplicate,
}

-- The memory is not touched and nothing queued, or the key was checked, and if the check has not
-- passed nothing was queued.
pub data Remembers (r : Reading) (ev : LogEvent) (p q : Pipeline) : Type 0 where
  untouched : q.dedup ≡ p.dedup → q.queue ≡ p.queue → Remembers r ev p q
  seen :
      (checked r ev p).1 ≡ false
      → q.dedup ≡ (checked r ev p).0
      → q.queue ≡ p.queue
      → Remembers r ev p q
  passes : (checked r ev p).1 ≡ true → q.dedup ≡ (checked r ev p).0 → Remembers r ev p q

dedup-after_send :
    (p : Pipeline) (x : Channel LogEvent × Outcome Bool) → (after_send p x).0.dedup ≡ p.dedup
unfolding after_send
dedup-after_send p (ch, panics e) = refl
dedup-after_send p (ch, returns true) = refl
dedup-after_send p (ch, returns false) = refl

dedup-deduplicate :
    (r : Reading) (ev : LogEvent) (p : Pipeline)
    → (checked r ev p).1 ≡ true
    → (deduplicate r.unix (stamped r ev) p).0.dedup ≡ (checked r ev p).0
unfolding deduplicate offer
dedup-deduplicate r ev p new = rw key-stamped (rw new (dedup-after_send _ _))

pub submit-Remembers :
    (r : Reading) (ev : LogEvent) (p : Pipeline) → Remembers r ev p (submit r ev p).0
unfolding reject
submit-Remembers r ev p = elim (Option-cases (validate r.utc ev).1) [
  | inr (s, e) ↦ rw (submit-reject r ev p s e) (untouched refl refl)
  | inl e ↦ rw (submit-deduplicate r ev p e) (elim (Bool-cases (checked r ev p).1) [
    | inl new ↦ passes new (dedup-deduplicate r ev p new)
    | inr old ↦ rw (deduplicate-duplicate r ev p old) (seen old refl refl)
  ])
]
