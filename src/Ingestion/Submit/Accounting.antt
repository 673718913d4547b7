-- ===== src/Ingestion/Submit/Accounting.antt =====
-- What submissions do to the queue and the counters.
use distributed_logs_aggrega.Base.{
  ℕ, ◌+◌, ◌≤◌, ◌<◌, ◌≡◌, refl, ap, ◌∙◌, Bool, true, false, List, [], ◌∷◌, ◌++◌, length, arith,
}
use distributed_logs_aggrega.Base.Int.{pos}
use distributed_logs_aggrega.Base.Word.{add64, modulus}
use mathlib.Core.List.{append_assoc, append-nil}
use distributed_logs_aggrega.Base.Channel.{Channel}
use distributed_logs_aggrega.Base.Outcome.{Outcome, returns, panics}
use distributed_logs_aggrega.Models.{LogEvent}
use distributed_logs_aggrega.Models.Validation.{IsComplete}
use distributed_logs_aggrega.Ingestion.{Pipeline}
use distributed_logs_aggrega.Ingestion.Dedup.{Dedup, check_and_store_dedup}
use distributed_logs_aggrega.Ingestion.Submit.{Reading, submit, submit_batch, reject, tally}
use distributed_logs_aggrega.Ingestion.Submit.Cases.{
  Ends, refused, duplicate, queued, overflows, stamped, enqueue, submit-Ends,
}

-- The events of a batch that do not pass the schema, that are duplicates, that are queued, and that
-- find no room.
pub record Sorted : Type 0 where
  pub invalid : ℕ
  pub duplicates : ℕ
  pub new : List LogEvent
  pub full : ℕ

abbrev looked_up : Reading → LogEvent → Dedup → Dedup × Bool
looked_up r ev d = check_and_store_dedup ev.idempotency_key r.unix d

abbrev Batch : Type 0
Batch = List (Reading × LogEvent)

-- Which of them an event is, with the memory and the queue that the events before it have left, is
-- decided by whether it is complete, whether its key is new, and whether there is room.
pub data Sorts : Batch → Dedup → Channel LogEvent → Sorted → Type 0 where
  no_events :
      {d : Dedup} {ch : Channel LogEvent}
      → Sorts [] d ch (record { invalid = 0; duplicates = 0; new = []; full = 0 })
  is_invalid :
      {r : Reading} {ev : LogEvent} {evs : Batch} {d : Dedup} {ch : Channel LogEvent} {k : Sorted}
      → ¬ IsComplete ev
      → Sorts evs d ch k
      → Sorts ((r, ev) ∷ evs) d ch (record k { invalid = 1 + k.invalid })
  is_duplicate :
      {r : Reading} {ev : LogEvent} {evs : Batch} {d : Dedup} {ch : Channel LogEvent} {k : Sorted}
      → IsComplete ev
      → (looked_up r ev d).1 ≡ false
      → Sorts evs (looked_up r ev d).0 ch k
      → Sorts ((r, ev) ∷ evs) d ch (record k { duplicates = 1 + k.duplicates })
  is_new :
      {r : Reading} {ev : LogEvent} {evs : Batch} {d : Dedup} {ch : Channel LogEvent} {k : Sorted}
      → IsComplete ev
      → (looked_up r ev d).1 ≡ true
      → length ch.items < ch.cap
      → Sorts evs (looked_up r ev d).0 (enqueue (stamped r ev) ch) k
      → Sorts ((r, ev) ∷ evs) d ch (record k { new = stamped r ev ∷ k.new })
  is_over :
      {r : Reading} {ev : LogEvent} {evs : Batch} {d : Dedup} {ch : Channel LogEvent} {k : Sorted}
      → IsComplete ev
      → (looked_up r ev d).1 ≡ true
      → ch.cap ≤ length ch.items
      → Sorts evs (looked_up r ev d).0 ch k
      → Sorts ((r, ev) ∷ evs) d ch (record k { full = 1 + k.full })

abbrev pub ok_of : Sorted → ℕ
ok_of k = k.duplicates + length k.new

abbrev pub bad_of : Sorted → ℕ
bad_of k = k.invalid + k.full

-- What a batch comes to.
pub record Accounts (evs : Batch) (p q : Pipeline) (t : Outcome (ℕ × ℕ)) : Type 0 where
  pub kinds : Sorted
  pub sorts : Sorts evs p.dedup p.queue kinds
  pub returned : t ≡ returns (ok_of kinds, bad_of kinds)
  pub total : ok_of kinds + bad_of kinds ≡ length evs
  pub rejected : q.rejected ≡ add64 p.rejected (pos kinds.invalid)
  pub dropped : q.dropped ≡ add64 p.dropped (pos kinds.full)
  pub accepted : q.accepted ≡ p.accepted
  pub queue : q.queue ≡ record (p.queue) { items = p.queue.items ++ kinds.new }

-- The counters are in the range of an int64's pattern.
abbrev pub InRange : Pipeline → Type 0
InRange p = (p.rejected < modulus) × (p.dropped < modulus)

tally-true :
    (t : Outcome (ℕ × ℕ)) (x y z : ℕ)
    → t ≡ returns (x, y)
    → z ≡ 1 + x
    → tally (returns true) t ≡ returns (z, y)
unfolding tally
tally-true t x y z h e = rw (h, e) (ground arith)

tally-false :
    (t : Outcome (ℕ × ℕ)) (x y z : ℕ)
    → t ≡ returns (x, y)
    → z ≡ 1 + y
    → tally (returns false) t ≡ returns (x, z)
unfolding tally
tally-false t x y z h e = rw (h, e) (ground arith)

-- The rest of a batch, behind the first submission.
abbrev go_on : Batch → Pipeline × Outcome Bool → Pipeline × Outcome (ℕ × ℕ)
go_on evs (p, b) = elim b [
  | panics e ↦ (p, panics e)
  | returns b ↦ let (q, t) = submit_batch evs p in (q, tally (returns b) t)
]

submit_batch-step :
    (r : Reading) (ev : LogEvent) (evs : Batch) (p p' : Pipeline) (b : Bool)
    → submit r ev p ≡ (p', returns b)
    → submit_batch ((r, ev) ∷ evs) p
      ≡ ((submit_batch evs p').0, tally (returns b) (submit_batch evs p').1)
unfolding submit_batch
submit_batch-step r ev evs p p' b h = ap (go_on evs) h

abbrev Accounted : Batch → Pipeline → Pipeline × Outcome (ℕ × ℕ) → Type 0
Accounted evs p (q, t) = Accounts evs p q t

cons-Accounts :
    (r : Reading) (ev : LogEvent) (evs : Batch) (p : Pipeline)
    → InRange p
    → Ends r ev p
    → ((q : Pipeline)
        → q.queue.closed ≡ p.queue.closed
        → InRange q
        → Accounted evs q (submit_batch evs q))
    → Accounted ((r, ev) ∷ evs) p (submit_batch ((r, ev) ∷ evs) p)
unfolding reject
cons-Accounts r ev evs p h (refused n e) rest =
    let a = rest (reject p).0 refl (omega arith, h.1) in
    rw (submit_batch-step r ev evs p _ false e) (record {
      kinds = record (a.kinds) { invalid = 1 + a.kinds.invalid };
      sorts = is_invalid n a.sorts;
      returned = tally-false _ _ _ _ a.returned (omega arith);
      total = omega (arith, a.total);
      rejected = omega (arith, a.rejected);
      dropped = a.dropped;
      accepted = a.accepted;
      queue = a.queue;
    })
cons-Accounts r ev evs p h (duplicate c seen e) rest =
    let a = rest (record p { dedup = (looked_up r ev p.dedup).0 }) refl h in
    rw (submit_batch-step r ev evs p _ true e) (record {
      kinds = record (a.kinds) { duplicates = 1 + a.kinds.duplicates };
      sorts = is_duplicate c seen a.sorts;
      returned = tally-true _ _ _ _ a.returned (omega arith);
      total = omega (arith, a.total);
      rejected = a.rejected;
      dropped = a.dropped;
      accepted = a.accepted;
      queue = a.queue;
    })
cons-Accounts r ev evs p h (queued c new room e) rest =
    let a =
      rest (record p { dedup = (looked_up r ev p.dedup).0; queue = enqueue (stamped r ev) p.queue })
        refl h in
    rw (submit_batch-step r ev evs p _ true e) (record {
      kinds = record (a.kinds) { new = stamped r ev ∷ a.kinds.new };
      sorts = is_new c new room a.sorts;
      returned = tally-true _ _ _ _ a.returned (omega arith);
      total = omega (arith, a.total);
      rejected = a.rejected;
      dropped = a.dropped;
      accepted = a.accepted;
      queue =
          a.queue
          ∙ ap (λ (xs : List LogEvent). record (p.queue) { items = xs })
              (append_assoc p.queue.items (stamped r ev ∷ []) a.kinds.new);
    })
cons-Accounts r ev evs p h (overflows c new full e) rest =
    let a =
      rest (record p { dedup = (looked_up r ev p.dedup).0; dropped = add64 p.dropped (pos 1) }) refl
        (h.0, omega arith) in
    rw (submit_batch-step r ev evs p _ false e) (record {
      kinds = record (a.kinds) { full = 1 + a.kinds.full };
      sorts = is_over c new full a.sorts;
      returned = tally-false _ _ _ _ a.returned (omega arith);
      total = omega (arith, a.total);
      rejected = a.rejected;
      dropped = omega (arith, a.dropped);
      accepted = a.accepted;
      queue = a.queue;
    })

-- On an open queue each event of a batch is one of four, decided by the schema, its key, and the room
-- that the events before it have left: invalid, a duplicate, queued, or one that finds the queue full.
-- `SubmitBatch` returns how many are duplicates or queued, and how many are not; `rejected` grows by
-- the invalid ones and `dropped` by those that found no room; the queue grows at its end by those that
-- are queued, in their order, and `accepted` does not change.
pub submit_batch-Accounts :
    (evs : List (Reading × LogEvent)) (p : Pipeline)
    → p.queue.closed ≡ false
    → InRange p
    → Accounts evs p (submit_batch evs p).0 (submit_batch evs p).1
unfolding submit_batch
submit_batch-Accounts [] p is_open h = record {
  kinds = record { invalid = 0; duplicates = 0; new = []; full = 0 };
  sorts = no_events;
  returned = refl;
  total = refl;
  rejected = omega arith;
  dropped = omega arith;
  accepted = refl;
  queue = simp append-nil;
}
submit_batch-Accounts ((r, ev) ∷ evs) p is_open h =
    cons-Accounts r ev evs p h (submit-Ends r ev p is_open)
      (λ q same. submit_batch-Accounts evs q (same ∙ is_open))
