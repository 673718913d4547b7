-- ===== src/Ingestion/Dedup.antt =====
-- `checkAndStoreDedup` of internal/ingestion/pipeline.go. Times are Unix seconds, of a clock past
-- 1970; a difference is compared by a sum, so that no subtraction stops at 0.
pub mod Once
pub mod Window
pub mod Memory
use distributed_logs_aggrega.Base.{
  ℕ, ◌+◌, String, Bool, true, false, Option, none, some, [], ◌==◌, ltb, if◌then◌else◌,
}
use distributed_logs_aggrega.Base.GoMap.{GoMap, lookup, insert, delete_if}

-- The fields `dedupe` and `dedupeAt` of the pipeline.
pub record Dedup : Type 0 where
  pub dedupe : GoMap ℕ
  pub dedupe_at : ℕ

abbrev pub empty : Dedup
empty = record { dedupe = []; dedupe_at = 0 }

-- `t < cutoff`, with `cutoff = now - 300`
abbrev pub is_stale : ℕ → ℕ → Bool
is_stale now t = ltb (t + 300) now

-- `if now-p.dedupeAt > 60 { … }`
unfoldable pub sweep : ℕ → Dedup → Dedup
sweep now d =
    if ltb (d.dedupe_at + 60) now
    then record { dedupe = delete_if (is_stale now) d.dedupe; dedupe_at = now }
    else d

unfoldable pub store_new : String → ℕ → Dedup → Option ℕ → Dedup × Bool
store_new key now d (some t) = (d, false)
store_new key now d none = (record d { dedupe = insert key now d.dedupe }, true)

-- The new state, and whether the event should be processed.
unfoldable pub check_and_store_dedup : String → ℕ → Dedup → Dedup × Bool
check_and_store_dedup key now d =
    if key == ""
    then (d, true)
    else let swept = sweep now d in store_new key now swept (lookup key swept.dedupe)
