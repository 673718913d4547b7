-- ===== src/Tests/Pipeline.antt =====
-- Submissions and the memory for their keys.
use distributed_logs_aggrega.Base.{
  ℕ, ◌+◌, ◌≤◌, ◌≡◌, ◌≢◌, ◌↔◌, refl, Bool, true, false, String, Option, none, some, List, [], ◌∷◌,
  inl, inr, length, All, arith,
}
use distributed_logs_aggrega.Base.GoMap.{UniqueKeys, lookup, insert, delete_if}
use distributed_logs_aggrega.Base.Channel.{try_send}
use distributed_logs_aggrega.Base.Outcome.{returns}
use distributed_logs_aggrega.Models.{LogEvent, validate}
use distributed_logs_aggrega.Models.Validation.{IsComplete}
use distributed_logs_aggrega.Ingestion.{Pipeline}
use distributed_logs_aggrega.Ingestion.Dedup.{Dedup, empty, check_and_store_dedup, sweep, store_new}
use distributed_logs_aggrega.Ingestion.Dedup.Once.{passes_once, run_checks}
use distributed_logs_aggrega.Ingestion.Dedup.Window.{IsFresh, duplicate_recent}
use distributed_logs_aggrega.Ingestion.Submit.{
  Reading, submit, submit_batch, reject, after_send, offer, deduplicate, admit,
}
use distributed_logs_aggrega.Ingestion.Submit.Accounting.{Accounts, submit_batch-Accounts}
use distributed_logs_aggrega.Ingestion.Submit.Retry.{retry_lost}
use distributed_logs_aggrega.Ingestion.Submit.Intake.{
  view, viewed, take_batch, submit_batch-take_batch,
}
use distributed_logs_aggrega.Tests.Data.{
  event, order_placed, out_of_memory, at, small, full, queue_of,
}

-- A new event, the same again, one that finds the queue full, and one with no message.
abbrev four : List (Reading × LogEvent)
four =
    (at 1000, order_placed)
    ∷ (at 1001, order_placed)
    ∷ (at 1002, event "WARN" "cache miss" "k2")
    ∷ (at 1003, event "WARN" "" "k3")
    ∷ []

four_returns : (submit_batch four small).1 ≡ returns (2, 2)
unfolding submit_batch submit admit validate deduplicate check_and_store_dedup store_new lookup
    sweep distributed_logs_aggrega.Base.GoMap.delete_if offer after_send try_send
    distributed_logs_aggrega.Ingestion.Submit.tally insert reject
four_returns = refl

submit_batch-Accounts_example :
    Accounts four small (submit_batch four small).0 (submit_batch four small).1
submit_batch-Accounts_example = submit_batch-Accounts four small refl (omega arith, omega arith)

pub order-IsComplete : IsComplete order_placed
order-IsComplete = record {
  named = λ e. cc;
  sourced = λ e. cc;
  worded = λ e. cc;
  levelled = inr (inl refl);
}

-- The queue is emptied before the retry.
abbrev emptied : Pipeline
emptied = record ((submit (at 1000) order_placed full).0) { queue = queue_of [] false }

retry_lost_example : (submit (at 1200) order_placed emptied).1 ≡ returns true
unfolding check_and_store_dedup sweep store_new lookup run_checks delete_if
retry_lost_example =
    (retry_lost (at 1000) (at 1200) order_placed full emptied [] refl order-IsComplete (λ e. cc) tt
      refl (omega arith) refl tt (omega arith)).2

passes_once_example :
    (check_and_store_dedup "k" 1300
      (run_checks (("other", 1100) ∷ []) (check_and_store_dedup "k" 1000 empty).0)).1
    ≡ false
unfolding check_and_store_dedup sweep store_new lookup distributed_logs_aggrega.Base.GoMap.delete_if
passes_once_example =
    passes_once "k" 1000 1300 (("other", 1100) ∷ []) empty (λ e. cc) tt refl (omega arith, tt)
      (omega arith)

abbrev one_key : Dedup
one_key = record { dedupe = ("k", 1000) ∷ []; dedupe_at = 1000 }

one_key-IsFresh : IsFresh 1000 one_key
unfolding lookup
one_key-IsFresh = record {
  unique = (refl, tt);
  within = ((omega arith, omega arith), tt);
  past = omega arith;
}

duplicate_recent_example : (t : ℕ) × (lookup "k" one_key.dedupe ≡ some t) × (1200 ≤ t + 360)
unfolding check_and_store_dedup sweep store_new lookup distributed_logs_aggrega.Base.GoMap.delete_if
duplicate_recent_example = duplicate_recent "k" 1000 1200 one_key (omega arith) one_key-IsFresh refl

-- A memory with two keys, one of which comes again.
abbrev remembering : Pipeline
remembering = record small {
  dedup = record { dedupe = ("k0", 900) ∷ ("k1", 950) ∷ []; dedupe_at = 950 };
}

unique_keys : UniqueKeys remembering.dedup.dedupe
unfolding lookup
unique_keys = (refl, (refl, tt))

submit_batch-take_batch_example :
    viewed (submit_batch ((at 1000, order_placed) ∷ (at 1001, out_of_memory) ∷ []) remembering)
    ≡ take_batch ((at 1000, order_placed) ∷ (at 1001, out_of_memory) ∷ []) (view remembering)
submit_batch-take_batch_example =
    submit_batch-take_batch ((at 1000, order_placed) ∷ (at 1001, out_of_memory) ∷ []) remembering
      unique_keys
