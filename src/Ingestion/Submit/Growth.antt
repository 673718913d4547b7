-- ===== src/Ingestion/Submit/Growth.antt =====
-- How a submission can change the queue, open or closed.
use distributed_logs_aggrega.Base.{
  ℕ, ◌<◌, ◌≡◌, refl, ◌⊎◌, inl, inr, Bool, true, false, length, arith, Bool-cases, Option-cases,
}
use distributed_logs_aggrega.Base.Channel.{Channel, try_send}
use distributed_logs_aggrega.Base.Outcome.{Outcome, returns, panics}
use distributed_logs_aggrega.Models.{LogEvent, validate}
use distributed_logs_aggrega.Ingestion.{Pipeline}
use distributed_logs_aggrega.Ingestion.Submit.{
  Reading, reject, after_send, offer, deduplicate, submit,
}
use distributed_logs_aggrega.Ingestion.Submit.Cases.{
  stamped, enqueue, submit-deduplicate, submit-reject,
}
use distributed_logs_aggrega.Ingestion.Dedup.{check_and_store_dedup}

-- `q` has the configuration of `p`, and its queue, with at most `ev` behind it.
pub record Grows (ev : LogEvent) (p q : Pipeline) : Type 0 where
  pub cfg : q.cfg ≡ p.cfg
  pub queue :
      (q.queue ≡ p.queue)
      ⊎ ((p.queue.closed ≡ false)
          × (length p.queue.items < p.queue.cap)
          × (q.queue ≡ enqueue ev p.queue))

try_send-true :
    (ev : LogEvent) (ch : Channel LogEvent)
    → (try_send ev ch).1 ≡ returns true
    → (ch.closed ≡ false) × (length ch.items < ch.cap) × ((try_send ev ch).0 ≡ enqueue ev ch)
unfolding try_send
try_send-true ev ch h = ground arith

after_send-Grows :
    (ev : LogEvent) (p : Pipeline) (x : Channel LogEvent × Outcome Bool)
    → (x.1 ≡ returns true
        → (p.queue.closed ≡ false)
          × (length p.queue.items < p.queue.cap)
          × (x.0 ≡ enqueue ev p.queue))
    → Grows ev p (after_send p x).0
unfolding after_send
after_send-Grows ev p (ch, panics e) h = record { cfg = refl; queue = inl refl }
after_send-Grows ev p (ch, returns true) h = record { cfg = refl; queue = inr (h refl) }
after_send-Grows ev p (ch, returns false) h = record { cfg = refl; queue = inl refl }

offer-Grows : (ev : LogEvent) (p : Pipeline) → Grows ev p (offer ev p).0
unfolding offer
offer-Grows ev p = after_send-Grows ev p (try_send ev p.queue) (try_send-true ev p.queue)

deduplicate-Grows : (now : ℕ) (ev : LogEvent) (p : Pipeline) → Grows ev p (deduplicate now ev p).0
unfolding deduplicate
deduplicate-Grows now ev p =
    let d = check_and_store_dedup ev.idempotency_key now p.dedup in
    let g = offer-Grows ev (record p { dedup = d.0 }) in
    elim (Bool-cases d.1) [
      | inl new ↦ rw new (record { cfg = g.cfg; queue = g.queue })
      | inr seen ↦ rw seen (record { cfg = refl; queue = inl refl })
    ]

-- A submission leaves the queue as it is, or puts its event at the end of an open one with room.
pub submit-Grows :
    (r : Reading) (ev : LogEvent) (p : Pipeline) → Grows (stamped r ev) p (submit r ev p).0
unfolding reject
submit-Grows r ev p = elim (Option-cases (validate r.utc ev).1) [
  | inl e ↦ rw (submit-deduplicate r ev p e) (deduplicate-Grows r.unix (stamped r ev) p)
  | inr (s, e) ↦ rw (submit-reject r ev p s e) (record { cfg = refl; queue = inl refl })
]
