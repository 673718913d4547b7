-- ===== src/Tests/Store.antt =====
-- The store, over a driver of a small kind.
use distributed_logs_aggrega.Base.{ℕ, ◌≡◌, refl, some, List, [], ◌∷◌, length, arith}
use distributed_logs_aggrega.Base.Int.{ℤ, pos}
use distributed_logs_aggrega.Base.GoMap.{GoMap, lookup}
use distributed_logs_aggrega.Metrics
use distributed_logs_aggrega.Models.{LogEvent}
use distributed_logs_aggrega.Storage.Documents.{Items}
use distributed_logs_aggrega.Storage.Insert.{
  InsertManyResult, bulk_write_exception, Documented, bulk_insert,
}
use distributed_logs_aggrega.Storage.Writes.{Writes, bulk_insert-Writes}
use distributed_logs_aggrega.Storage.Aggregate.{
  Doubles, Aggregated, aggregated, Stats, aggregate_stats, snapshot,
}
use distributed_logs_aggrega.Storage.Groups.{facets}
use distributed_logs_aggrega.Storage.ErrorRate.{Summarises, aggregate_stats-Summarises}
use distributed_logs_aggrega.Ingestion.Worker.{Driver, Local, received, round}
use distributed_logs_aggrega.Ingestion.Worker.Counting.{Counted, round-Counted}
use distributed_logs_aggrega.Tests.Data.{small, order_placed, out_of_memory}

-- The first document of a batch is refused.
abbrev first_fails : List LogEvent → InsertManyResult
first_fails [] = bulk_write_exception []
first_fails (e ∷ es) = bulk_write_exception (0 ∷ [])

first_fails-Documented : Documented first_fails
first_fails-Documented [] = omega arith
first_fails-Documented (e ∷ es) = omega arith

bulk_insert-Writes_example :
    Writes
      (first_fails (order_placed ∷ out_of_memory ∷ []))
      (length (order_placed ∷ out_of_memory ∷ []))
      Metrics.new
      (bulk_insert first_fails 7 (order_placed ∷ out_of_memory ∷ []) (some Metrics.new))
bulk_insert-Writes_example =
    bulk_insert-Writes first_fails first_fails-Documented 7 order_placed (out_of_memory ∷ [])
      Metrics.new

abbrev failing : Driver
failing = record { insert_many = first_fails; elapsed = 7 }

-- The next event fills the batch.
abbrev nearly_full : Local
nearly_full = record { batch = order_placed ∷ []; pipeline = small; writes = [] }

round-Counted_example :
    Counted failing small [] (round (received out_of_memory) failing nearly_full).0
round-Counted_example =
    round-Counted (received out_of_memory) failing nearly_full first_fails-Documented (omega arith)

-- A quotient by its two terms.
abbrev quotients : Doubles
quotients = record {
  Double = ℤ × ℤ;
  truncate = λ x. x.0;
  of_int64 = λ n. (n, pos 1);
  divide = λ x y. (x.0, y.0);
}

abbrev levels : GoMap ℕ
levels = ("INFO", 3000000000) ∷ ("FATAL", 1) ∷ ("ERROR", 2) ∷ []

abbrev services : GoMap ℕ
services = ("orders", 3000000003) ∷ []

abbrev answers : Items (ℤ × ℤ) → Aggregated quotients
answers pipeline = aggregated (facets (ℤ × ℤ) 3000000003 levels services ∷ [])

aggregate_stats-Summarises_example :
    (s : Stats quotients) × (aggregate_stats quotients answers (pos 90) (pos 30) ≡ snapshot s)
    × Summarises quotients 3000000003 levels services s
unfolding lookup
aggregate_stats-Summarises_example =
    aggregate_stats-Summarises quotients answers (pos 90) (pos 30) 3000000003 levels services refl
      (refl, (refl, (refl, tt))) (refl, tt) (omega arith)
