-- ===== src/Ingestion/Submit.antt =====
-- `Submit` and `SubmitBatch` of internal/ingestion/pipeline.go. A submission reads the clock twice,
-- in `Validate` and in `checkAndStoreDedup`; both readings are arguments.
pub mod Cases
pub mod Verdict
pub mod Accounting
pub mod Retry
pub mod Growth
pub mod Memory
pub mod Late
pub mod Keyless
pub mod Intake
use distributed_logs_aggrega.Base.{
  ℕ, suc, ◌+◌, Bool, true, false, String, Option, none, some, List, [], ◌∷◌, if◌then◌else◌,
}
use distributed_logs_aggrega.Base.Int.{pos}
use distributed_logs_aggrega.Base.Word.{add64}
use distributed_logs_aggrega.Base.Channel.{Channel, try_send}
use distributed_logs_aggrega.Base.Outcome.{Outcome, returns, panics}
use distributed_logs_aggrega.Metrics.{Collectors}
use distributed_logs_aggrega.Models.{LogEvent, Time, validate}
use distributed_logs_aggrega.Storage.Insert.{when_present}
use distributed_logs_aggrega.Ingestion.{Pipeline}
use distributed_logs_aggrega.Ingestion.Dedup.{Dedup, check_and_store_dedup}

pub record Reading : Type 0 where
  pub utc : Time
  pub unix : ℕ

-- `RejectedTotal.Inc()`
abbrev count_rejected : Collectors → Collectors
count_rejected c = record c { rejected_total = c.rejected_total + 1 }

unfoldable pub reject : Pipeline → Pipeline × Outcome Bool
reject p = (
  record p {
    rejected = add64 p.rejected (pos 1);
    collectors = when_present count_rejected p.collectors;
  },
  returns false,
)

-- The `default` case of the `select` counts a drop.
unfoldable pub after_send : Pipeline → Channel LogEvent × Outcome Bool → Pipeline × Outcome Bool
after_send p (ch, panics e) = (p, panics e)
after_send p (ch, returns true) = (record p { queue = ch }, returns true)
after_send p (ch, returns false) = (record p { dropped = add64 p.dropped (pos 1) }, returns false)

-- `select { case p.in <- ev: … default: … }`
unfoldable pub offer : LogEvent → Pipeline → Pipeline × Outcome Bool
offer ev p = after_send p (try_send ev p.queue)

-- A duplicate is reported as accepted.
unfoldable pub deduplicate : ℕ → LogEvent → Pipeline → Pipeline × Outcome Bool
deduplicate now ev p =
    let (d, fresh) = check_and_store_dedup ev.idempotency_key now p.dedup in
    let p' : Pipeline = record p { dedup = d } in if fresh then offer ev p' else (p', returns true)

unfoldable pub admit : ℕ → Pipeline → LogEvent × Option String → Pipeline × Outcome Bool
admit now p (ev, some e) = reject p
admit now p (ev, none) = deduplicate now ev p

-- `ev` is a copy: what is queued has the timestamp that validation gave it.
unfoldable pub submit : Reading → LogEvent → Pipeline → Pipeline × Outcome Bool
submit r ev p = admit r.unix p (validate r.utc ev)

-- The numbers of accepted and rejected events so far, or a panic that ends the loop.
unfoldable pub tally : Outcome Bool → Outcome (ℕ × ℕ) → Outcome (ℕ × ℕ)
tally (panics e) rest = panics e
tally (returns b) (panics e) = panics e
tally (returns true) (returns (ok, bad)) = returns (suc ok, bad)
tally (returns false) (returns (ok, bad)) = returns (ok, suc bad)

unfoldable pub submit_batch : List (Reading × LogEvent) → Pipeline → Pipeline × Outcome (ℕ × ℕ)
submit_batch [] p = (p, returns (0, 0))
submit_batch ((r, ev) ∷ evs) p =
    let (p', b) = submit r ev p in
    elim b [
      | panics e ↦ (p', panics e)
      | returns b ↦ let (q, t) = submit_batch evs p' in (q, tally (returns b) t)
    ]
