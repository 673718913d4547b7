-- ===== src/Ingestion/Submit/Cases.antt =====
-- The four ways in which `Submit` ends on an open queue.
use distributed_logs_aggrega.Base.{
  ◌≤◌, ◌<◌, ◌≡◌, ap, Bool, true, false, inl, inr, String, none, some, [], ◌∷◌, ◌++◌, length, arith,
  Bool-cases, Option-cases, ◌∙◌,
}
use native.Mathlib.Decide.{dec_lt}
use distributed_logs_aggrega.Base.Int.{pos}
use distributed_logs_aggrega.Base.Word.{add64}
use distributed_logs_aggrega.Base.Channel.{Channel, try_send}
use distributed_logs_aggrega.Base.Outcome.{returns}
use distributed_logs_aggrega.Models.{LogEvent, validate}
use distributed_logs_aggrega.Models.Validation.{IsComplete, validate-none_iff, validate-fields}
use distributed_logs_aggrega.Ingestion.{Pipeline}
use distributed_logs_aggrega.Ingestion.Dedup.{Dedup, check_and_store_dedup}
use distributed_logs_aggrega.Ingestion.Submit.{
  Reading, reject, after_send, offer, deduplicate, admit, submit,
}

-- The event as it is queued, and the dedupe state that the submission leaves.
abbrev pub stamped : Reading → LogEvent → LogEvent
stamped r ev = (validate r.utc ev).0

abbrev pub checked : Reading → LogEvent → Pipeline → Dedup × Bool
checked r ev p = check_and_store_dedup ev.idempotency_key r.unix p.dedup

abbrev pub enqueue : LogEvent → Channel LogEvent → Channel LogEvent
enqueue ev ch = record ch { items = ch.items ++ ev ∷ [] }

pub data Ends (r : Reading) (ev : LogEvent) (p : Pipeline) : Type 0 where
  refused : ¬ IsComplete ev → submit r ev p ≡ reject p → Ends r ev p
  duplicate :
      IsComplete ev
      → (checked r ev p).1 ≡ false
      → submit r ev p ≡ (record p { dedup = (checked r ev p).0 }, returns true)
      → Ends r ev p
  queued :
      IsComplete ev
      → (checked r ev p).1 ≡ true
      → length p.queue.items < p.queue.cap
      → submit r ev p ≡ (
        record p { dedup = (checked r ev p).0; queue = enqueue (stamped r ev) p.queue },
        returns true,
      )
      → Ends r ev p
  overflows :
      IsComplete ev
      → (checked r ev p).1 ≡ true
      → p.queue.cap ≤ length p.queue.items
      → submit r ev p ≡ (
        record p { dedup = (checked r ev p).0; dropped = add64 p.dropped (pos 1) },
        returns false,
      )
      → Ends r ev p

pub key-stamped :
    (r : Reading) (ev : LogEvent) → (stamped r ev).idempotency_key ≡ ev.idempotency_key
key-stamped r ev = ap (λ (e : LogEvent). e.idempotency_key) (validate-fields r.utc ev)

-- `admit` at an event that passed.
pub submit-deduplicate :
    (r : Reading) (ev : LogEvent) (p : Pipeline)
    → (validate r.utc ev).1 ≡ none
    → submit r ev p ≡ deduplicate r.unix (stamped r ev) p
unfolding submit admit
submit-deduplicate r ev p h = rw (h, admit)

pub submit-reject :
    (r : Reading) (ev : LogEvent) (p : Pipeline) (e : String)
    → (validate r.utc ev).1 ≡ some e
    → submit r ev p ≡ reject p
unfolding submit admit
submit-reject r ev p e h = rw (h, admit)

pub deduplicate-duplicate :
    (r : Reading) (ev : LogEvent) (p : Pipeline)
    → (checked r ev p).1 ≡ false
    → deduplicate r.unix (stamped r ev) p ≡ (record p { dedup = (checked r ev p).0 }, returns true)
unfolding deduplicate
deduplicate-duplicate r ev p seen = rw key-stamped (rw seen)

module _ (r : Reading) (ev : LogEvent) (p : Pipeline) (is_open : p.queue.closed ≡ false) where
  deduplicate-queued :
      (checked r ev p).1 ≡ true
      → length p.queue.items < p.queue.cap
      → deduplicate r.unix (stamped r ev) p ≡ (
        record p { dedup = (checked r ev p).0; queue = enqueue (stamped r ev) p.queue },
        returns true,
      )
  unfolding deduplicate offer after_send try_send
  deduplicate-queued new room = rw key-stamped (rw (new, is_open) (ground arith))

  deduplicate-overflows :
      (checked r ev p).1 ≡ true
      → p.queue.cap ≤ length p.queue.items
      → deduplicate r.unix (stamped r ev) p ≡ (
        record p { dedup = (checked r ev p).0; dropped = add64 p.dropped (pos 1) },
        returns false,
      )
  unfolding deduplicate offer after_send try_send
  deduplicate-overflows new full = rw key-stamped (rw (new, is_open) (ground arith))

  deduplicate-Ends :
      IsComplete ev → submit r ev p ≡ deduplicate r.unix (stamped r ev) p → Ends r ev p
  deduplicate-Ends c h = elim (Bool-cases (checked r ev p).1) [
    | inr seen ↦ duplicate c seen (h ∙ deduplicate-duplicate r ev p seen)
    | inl new ↦ elim (dec_lt (length p.queue.items) p.queue.cap) [
      | yes room ↦ queued c new room (h ∙ deduplicate-queued new room)
      | no full ↦ overflows c new (omega arith) (h ∙ deduplicate-overflows new (omega arith))
    ]
  ]

-- `Submit` on an open queue ends in one of four ways, and returns.
pub submit-Ends :
    (r : Reading) (ev : LogEvent) (p : Pipeline) → p.queue.closed ≡ false → Ends r ev p
submit-Ends r ev p o = elim (Option-cases (validate r.utc ev).1) [
  | inl e ↦
      deduplicate-Ends r ev p o ((validate-none_iff r.utc ev).0 e) (submit-deduplicate r ev p e)
  | inr (s, e) ↦ refused (λ c. cc (e, (validate-none_iff r.utc ev).1 c)) (submit-reject r ev p s e)
]
