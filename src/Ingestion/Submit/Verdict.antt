-- ===== src/Ingestion/Submit/Verdict.antt =====
-- Which submissions are accepted.
use distributed_logs_aggrega.Base.{◌<◌, ◌≡◌, refl, ◌↔◌, ◌⊎◌, inl, inr, true, false, length, arith}
use distributed_logs_aggrega.Base.Outcome.{returns}
use distributed_logs_aggrega.Models.{LogEvent}
use distributed_logs_aggrega.Models.Validation.{IsComplete}
use distributed_logs_aggrega.Ingestion.{Pipeline}
use distributed_logs_aggrega.Ingestion.Submit.{Reading, submit, reject}
use distributed_logs_aggrega.Ingestion.Submit.Cases.{
  Ends, refused, duplicate, queued, overflows, checked, submit-Ends,
}

-- Said of an open queue, whether the submission is accepted is decided by these three.
abbrev pub Accepted : Reading → LogEvent → Pipeline → Type 0
Accepted r ev p =
    IsComplete ev × (((checked r ev p).1 ≡ false) ⊎ (length p.queue.items < p.queue.cap))

accepted_lem :
    (r : Reading) (ev : LogEvent) (p : Pipeline)
    → Ends r ev p
    → ((submit r ev p).1 ≡ returns true) ↔ Accepted r ev p
unfolding reject
accepted_lem r ev p (refused n e) = rw e ((λ h. cc), (λ a. absurd (n a.0)))
accepted_lem r ev p (duplicate c seen e) = rw e ((λ _. (c, inl seen)), (λ _. refl))
accepted_lem r ev p (queued c new room e) = rw e ((λ _. (c, inr room)), (λ _. refl))
accepted_lem r ev p (overflows c new full e) =
    rw e
      ((λ h. cc), (λ a. elim a.1 [ inl seen ↦ cc (seen, new) | inr room ↦ absurd (omega arith) ]))

-- On an open queue `Submit` returns true exactly for a complete event that is a duplicate or finds
-- room.
pub submit-true_iff :
    (r : Reading) (ev : LogEvent) (p : Pipeline)
    → p.queue.closed ≡ false
    → ((submit r ev p).1 ≡ returns true) ↔ Accepted r ev p
submit-true_iff r ev p is_open = accepted_lem r ev p (submit-Ends r ev p is_open)
