-- ===== src/Ingestion/Submit/Keyless.antt =====
-- Submissions of events without an idempotency key, which are never taken for duplicates.
use distributed_logs_aggrega.Base.{
  ℕ, ◌+◌, ◌≡◌, refl, sym, ◌∙◌, Bool, true, false, inl, inr, List, [], ◌∷◌, length, length-append,
  All, arith, Bool-cases, Option-cases,
}
use distributed_logs_aggrega.Base.Channel.{Channel, try_send}
use distributed_logs_aggrega.Base.Outcome.{Outcome, returns, panics}
use distributed_logs_aggrega.Models.{LogEvent, validate}
use distributed_logs_aggrega.Ingestion.{Pipeline}
use distributed_logs_aggrega.Ingestion.Dedup.{check_and_store_dedup}
use distributed_logs_aggrega.Ingestion.Submit.{
  Reading, reject, after_send, offer, deduplicate, submit, tally, submit_batch,
}
use distributed_logs_aggrega.Ingestion.Submit.Cases.{
  stamped, key-stamped, submit-deduplicate, submit-reject, Ends, refused, duplicate, overflows,
  submit-Ends,
}

-- How many events a call has reported as accepted.
abbrev pub one_if : Outcome Bool → ℕ
one_if (panics e) = 0
one_if (returns true) = 1
one_if (returns false) = 0

abbrev pub accepted_of : Outcome (ℕ × ℕ) → ℕ
accepted_of (panics e) = 0
accepted_of (returns (ok, bad)) = ok

abbrev pub queued : Pipeline → ℕ
queued p = length p.queue.items

abbrev pub NoKey : LogEvent → Type 0
NoKey ev = ev.idempotency_key ≡ ""

-- The queue grows by what is reported as accepted; a closed one stays closed, and takes nothing.
pub record Takes (p q : Pipeline) (n : ℕ) : Type 0 where
  pub grown : queued q ≡ queued p + n
  pub closed : q.queue.closed ≡ p.queue.closed
  pub shut : p.queue.closed ≡ true → n ≡ 0

try_send-Takes :
    (ev : LogEvent) (p : Pipeline) (x : Channel LogEvent × Outcome Bool)
    → try_send ev p.queue ≡ x
    → Takes p (after_send p x).0 (one_if (after_send p x).1)
unfolding try_send after_send
try_send-Takes ev p (ch, panics e) h = record {
  grown = omega arith;
  closed = refl;
  shut = λ c. refl;
}
try_send-Takes ev p (ch, returns true) h = record {
  grown = ground (arith, length-append p.queue.items (ev ∷ []));
  closed = ground arith;
  shut = λ c. ground arith;
}
try_send-Takes ev p (ch, returns false) h = record {
  grown = omega arith;
  closed = refl;
  shut = λ c. refl;
}

unkeyed :
    (now : ℕ) (ev : LogEvent) (p : Pipeline)
    → NoKey ev
    → check_and_store_dedup ev.idempotency_key now p.dedup ≡ (p.dedup, true)
unfolding check_and_store_dedup
unkeyed now ev p h = rw h refl

deduplicate-Takes :
    (now : ℕ) (ev : LogEvent) (p : Pipeline)
    → NoKey ev
    → Takes p (deduplicate now ev p).0 (one_if (deduplicate now ev p).1)
unfolding deduplicate offer
deduplicate-Takes now ev p h = rw (unkeyed now ev p h) (try_send-Takes ev p _ refl)

pub submit-Takes :
    (r : Reading) (ev : LogEvent) (p : Pipeline)
    → NoKey ev
    → Takes p (submit r ev p).0 (one_if (submit r ev p).1)
unfolding reject
submit-Takes r ev p h = elim (Option-cases (validate r.utc ev).1) [
  | inl passed ↦
      rw (submit-deduplicate r ev p passed)
        (deduplicate-Takes r.unix (stamped r ev) p (key-stamped r ev ∙ h))
  | inr (e, failed) ↦
      rw (submit-reject r ev p e failed)
        (record { grown = omega arith; closed = refl; shut = λ c. refl })
]

-- Only a closed queue makes a call panic.
abbrev pub Blames : {A : Type 0} → Pipeline → Outcome A → Type 0
Blames p (panics e) = p.queue.closed ≡ true
Blames p (returns a) = Unit

Ends-Blames :
    (r : Reading) (ev : LogEvent) (p : Pipeline) → Ends r ev p → Blames p (submit r ev p).1
unfolding reject
Ends-Blames r ev p (refused n e) = rw e tt
Ends-Blames r ev p (duplicate c seen e) = rw e tt
Ends-Blames r ev p (Ends.queued c new room e) = rw e tt
Ends-Blames r ev p (overflows c new full e) = rw e tt

closed-Blames : {A : Type 0} (p : Pipeline) (o : Outcome A) → p.queue.closed ≡ true → Blames p o
closed-Blames p (panics e) c = c
closed-Blames p (returns a) c = tt

submit-Blames : (r : Reading) (ev : LogEvent) (p : Pipeline) → Blames p (submit r ev p).1
submit-Blames r ev p = elim (Bool-cases p.queue.closed) [
  | inl c ↦ closed-Blames p (submit r ev p).1 c
  | inr o ↦ Ends-Blames r ev p (submit-Ends r ev p o)
]

-- A batch of which an event has been accepted does not panic later.
tally-Takes :
    (p p' q : Pipeline) (b : Bool) (t : Outcome (ℕ × ℕ))
    → Takes p p' (one_if (returns b))
    → Takes p' q (accepted_of t)
    → Blames p' t
    → Takes p q (accepted_of (tally (returns b) t)) × Blames p (tally (returns b) t)
unfolding tally
tally-Takes p p' q b (panics e) one rest blame = (
  record {
    grown = omega (arith, one.grown, rest.grown, one.shut (sym one.closed ∙ blame));
    closed = rest.closed ∙ one.closed;
    shut = λ c. refl;
  },
  sym one.closed ∙ blame,
)
tally-Takes p p' q true (returns (ok, bad)) one rest blame = (
  record {
    grown = omega (arith, one.grown, rest.grown);
    closed = rest.closed ∙ one.closed;
    shut = λ c. absurd (omega (arith, one.shut c));
  },
  tt,
)
tally-Takes p p' q false (returns (ok, bad)) one rest blame = (
  record {
    grown = omega (arith, one.grown, rest.grown);
    closed = rest.closed ∙ one.closed;
    shut = λ c. rest.shut (one.closed ∙ c);
  },
  tt,
)

abbrev pub BatchTakes : Pipeline → Pipeline × Outcome (ℕ × ℕ) → Type 0
BatchTakes p (q, t) = Takes p q (accepted_of t) × Blames p t

after_one :
    (evs : List (Reading × LogEvent)) (p : Pipeline) (x : Pipeline × Outcome Bool)
    → Takes p x.0 (one_if x.1)
    → Blames p x.1
    → BatchTakes x.0 (submit_batch evs x.0)
    → BatchTakes p (elim x.1 [
      | panics e ↦ (x.0, panics e)
      | returns b ↦ let (q, t) = submit_batch evs x.0 in (q, tally (returns b) t)
    ])
after_one evs p (p', panics e) one blame rest = (one, blame)
after_one evs p (p', returns b) one blame rest =
    tally-Takes p p' (submit_batch evs p').0 b (submit_batch evs p').1 one rest.0 rest.1

-- A batch without keys, on an open or a closed queue: the queue grows by the events that are reported
-- as accepted, and by none if the call panics.
pub submit_batch-Takes :
    (evs : List (Reading × LogEvent)) (p : Pipeline)
    → All (λ x. NoKey x.1) evs
    → BatchTakes p (submit_batch evs p)
unfolding submit_batch
submit_batch-Takes [] p h = (record { grown = omega arith; closed = refl; shut = λ c. refl }, tt)
submit_batch-Takes ((r, ev) ∷ evs) p h =
    after_one evs p (submit r ev p) (submit-Takes r ev p h.0) (submit-Blames r ev p)
      (submit_batch-Takes evs (submit r ev p).0 h.1)
