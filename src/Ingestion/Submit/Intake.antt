-- ===== src/Ingestion/Submit/Intake.antt =====
-- What `Submit` and `SubmitBatch` promise: as they are, over a memory for keys that has no order.
use distributed_logs_aggrega.Base.{
  ◌≡◌, refl, ap, ◌∙◌, ℕ, Bool, true, false, Option, none, some, String, List, [], ◌∷◌,
  if◌then◌else◌,
}
use distributed_logs_aggrega.Base.Channel.{Channel, try_send}
use distributed_logs_aggrega.Base.GoMap.{UniqueKeys}
use distributed_logs_aggrega.Base.Outcome.{Outcome, returns, panics}
use distributed_logs_aggrega.Models.{LogEvent, validate}
use distributed_logs_aggrega.Ingestion.{Pipeline}
use distributed_logs_aggrega.Ingestion.Dedup.{Dedup, empty, check_and_store_dedup}
use distributed_logs_aggrega.Ingestion.Dedup.Once.{check-UniqueKeys}
use distributed_logs_aggrega.Ingestion.Dedup.Memory.{Memory, memory, check, seen, memory-check}
use distributed_logs_aggrega.Ingestion.Submit.{
  Reading, reject, after_send, offer, deduplicate, admit, submit, tally, submit_batch,
}

-- `rest` has no memory of its own.
pub record Intake : Type 0 where
  pub known : Memory
  pub rest : Pipeline

abbrev pub view : Pipeline → Intake
view p = record { known = memory p.dedup; rest = record p { dedup = empty } }

abbrev pub viewed : {A : Type 0} → Pipeline × A → Intake × A
viewed (p, a) = (view p, a)

abbrev on_rest : {A : Type 0} → Memory → Pipeline × A → Intake × A
on_rest m (p, a) = (record { known = m; rest = p }, a)

abbrev proceed : LogEvent → Pipeline → Memory × Bool → Intake × Outcome Bool
proceed ev p (m, fresh) =
    if fresh then on_rest m (offer ev p) else (record { known = m; rest = p }, returns true)

abbrev decide : Reading → Intake → LogEvent × Option String → Intake × Outcome Bool
decide r i (ev, some e) = on_rest i.known (reject i.rest)
decide r i (ev, none) = proceed ev i.rest (check ev.idempotency_key r.unix i.known)

-- A submission and a batch of them, in these terms.
unfoldable pub take : Reading → LogEvent → Intake → Intake × Outcome Bool
take r ev i = decide r i (validate r.utc ev)

unfoldable pub take_batch : List (Reading × LogEvent) → Intake → Intake × Outcome (ℕ × ℕ)
take_batch [] i = (i, returns (0, 0))
take_batch ((r, ev) ∷ evs) i =
    let (j, b) = take r ev i in
    elim b [
      | panics e ↦ (j, panics e)
      | returns b ↦ let (k, t) = take_batch evs j in (k, tally (returns b) t)
    ]

viewed-after_send :
    (d : Dedup) (p : Pipeline) (x : Channel LogEvent × Outcome Bool)
    → viewed (after_send (record p { dedup = d }) x)
      ≡ on_rest (memory d) (after_send (record p { dedup = empty }) x)
unfolding after_send
viewed-after_send d p (ch, panics e) = refl
viewed-after_send d p (ch, returns true) = refl
viewed-after_send d p (ch, returns false) = refl

viewed-fresh :
    (ev : LogEvent) (p : Pipeline) (x : Dedup × Bool)
    → viewed (
        if x.1
        then offer ev (record p { dedup = x.0 })
        else (record p { dedup = x.0 }, returns true))
      ≡ proceed ev (record p { dedup = empty }) (seen x)
unfolding offer
viewed-fresh ev p (d, true) = viewed-after_send d p _
viewed-fresh ev p (d, false) = refl

viewed-admit :
    (r : Reading) (p : Pipeline) (v : LogEvent × Option String)
    → UniqueKeys p.dedup.dedupe
    → viewed (admit r.unix p v) ≡ decide r (view p) v
unfolding admit reject deduplicate
viewed-admit r p (ev, some e) u = refl
viewed-admit r p (ev, none) u =
    viewed-fresh ev p (check_and_store_dedup ev.idempotency_key r.unix p.dedup)
    ∙ ap (proceed ev (record p { dedup = empty }))
        (memory-check ev.idempotency_key r.unix p.dedup u)

pub submit-take :
    (r : Reading) (ev : LogEvent) (p : Pipeline)
    → UniqueKeys p.dedup.dedupe
    → viewed (submit r ev p) ≡ take r ev (view p)
unfolding submit take
submit-take r ev p u = viewed-admit r p (validate r.utc ev) u

abbrev Tidy : Pipeline → Type 0
Tidy p = UniqueKeys p.dedup.dedupe

Tidy-after_send :
    (p : Pipeline) (x : Channel LogEvent × Outcome Bool) → Tidy p → Tidy (after_send p x).0
unfolding after_send
Tidy-after_send p (ch, panics e) u = u
Tidy-after_send p (ch, returns true) u = u
Tidy-after_send p (ch, returns false) u = u

Tidy-fresh :
    (ev : LogEvent) (p : Pipeline) (x : Dedup × Bool)
    → UniqueKeys x.0.dedupe
    → Tidy
        (if x.1
          then offer ev (record p { dedup = x.0 })
          else (record p { dedup = x.0 }, returns true)).0
unfolding offer
Tidy-fresh ev p (d, true) u = Tidy-after_send (record p { dedup = d }) (try_send ev p.queue) u
Tidy-fresh ev p (d, false) u = u

Tidy-admit :
    (r : Reading) (p : Pipeline) (v : LogEvent × Option String) → Tidy p → Tidy (admit r.unix p v).0
unfolding admit reject deduplicate
Tidy-admit r p (ev, some e) u = u
Tidy-admit r p (ev, none) u =
    Tidy-fresh ev p (check_and_store_dedup ev.idempotency_key r.unix p.dedup)
      (check-UniqueKeys ev.idempotency_key r.unix p.dedup u)

Tidy-submit : (r : Reading) (ev : LogEvent) (p : Pipeline) → Tidy p → Tidy (submit r ev p).0
unfolding submit
Tidy-submit r ev p u = Tidy-admit r p (validate r.utc ev) u

-- The rest of a batch, behind a submission that ended as `x`.
module _ (evs : List (Reading × LogEvent)) where
  abbrev Rest : Type 0
  Rest = Outcome (ℕ × ℕ)

  abbrev taken_rest : Intake × Outcome Bool → Intake × Rest
  taken_rest (j, b) = elim b [
    | panics e ↦ (j, panics e)
    | returns b ↦ let (k, t) = take_batch evs j in (k, tally (returns b) t)
  ]

  viewed_rest :
      (x : Pipeline × Outcome Bool)
      → viewed (submit_batch evs x.0) ≡ take_batch evs (view x.0)
      → viewed {A = Rest} (elim x.1 [
        | panics e ↦ (x.0, panics e)
        | returns b ↦ let (q, t) = submit_batch evs x.0 in (q, tally (returns b) t)
      ])
        ≡ taken_rest (viewed x)
  viewed_rest (p, panics e) h = refl
  viewed_rest (p, returns b) h = ap (λ (y : Intake × Rest). (y.0, tally (returns b) y.1)) h

-- If no key is twice in the memory, a batch has the same answer over the map as over a memory that is
-- a function from keys to times, and leaves the same memory, queue and counters: no behaviour depends
-- on the order of the map, which Go leaves open.
pub submit_batch-take_batch :
    (evs : List (Reading × LogEvent)) (p : Pipeline)
    → UniqueKeys p.dedup.dedupe
    → viewed (submit_batch evs p) ≡ take_batch evs (view p)
unfolding submit_batch take_batch
submit_batch-take_batch [] p u = refl
submit_batch-take_batch ((r, ev) ∷ evs) p u =
    viewed_rest evs (submit r ev p)
      (submit_batch-take_batch evs (submit r ev p).0 (Tidy-submit r ev p u))
    ∙ ap (taken_rest evs) (submit-take r ev p u)
