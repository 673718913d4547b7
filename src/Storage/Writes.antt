-- ===== src/Storage/Writes.antt =====
-- What `BulkInsert` reports of a batch.
use distributed_logs_aggrega.Base.{
  ℕ, ◌+◌, ◌-◌, ◌≡◌, refl, String, Option, none, some, List, ◌∷◌, length, arith,
}
use distributed_logs_aggrega.Base.Int.{pos}
use distributed_logs_aggrega.Metrics.{Collectors}
use distributed_logs_aggrega.Models.{LogEvent}
use distributed_logs_aggrega.Storage.Insert.{
  InsertManyResult, inserted_ids, bulk_write_exception, other_error, Inserted, settle, bulk_insert,
  failures, Answers, Documented, observe, add_write_errors,
}

-- The error that `BulkInsert` hands on, and what it adds to `WriteErrors`.
abbrev pub fatal_of : InsertManyResult → Option String
fatal_of (other_error e) = some e
fatal_of (inserted_ids ids) = none
fatal_of (bulk_write_exception failed) = none

abbrev pub errors_of : InsertManyResult → ℕ
errors_of (other_error e) = 1
errors_of (inserted_ids ids) = 0
errors_of (bulk_write_exception failed) = length failed

pub record Writes (r : InsertManyResult) (n : ℕ) (c : Collectors)
    (out : Option Collectors × Inserted) : Type 0 where
  pub written : ℕ
  pub after : Collectors
  pub count : out.1.count ≡ pos written
  pub all : written + failures r n ≡ n
  pub error : out.1.error ≡ fatal_of r
  pub collectors : out.0 ≡ some after
  pub write_errors : after.write_errors ≡ c.write_errors + errors_of r
  pub batch_size : after.batch_size ≡ n ∷ c.batch_size
  pub timed : length after.write_latency ≡ length c.write_latency + 1

settle-Writes :
    (elapsed : ℕ) (r : InsertManyResult) (n : ℕ) (c : Collectors)
    → Answers n r
    → Writes r n c (settle r n (some (observe elapsed n c)))
unfolding settle
settle-Writes elapsed (inserted_ids ids) n c h = record {
  written = length ids;
  after = observe elapsed n c;
  count = refl;
  all = omega (arith, h);
  error = refl;
  collectors = refl;
  write_errors = omega arith;
  batch_size = refl;
  timed = omega arith;
}
settle-Writes elapsed (bulk_write_exception failed) n c h = record {
  written = n - length failed;
  after = add_write_errors (length failed) (observe elapsed n c);
  count = ground arith;
  all = omega (arith, h);
  error = refl;
  collectors = refl;
  write_errors = refl;
  batch_size = refl;
  timed = omega arith;
}
settle-Writes elapsed (other_error e) n c h = record {
  written = 0;
  after = add_write_errors 1 (observe elapsed n c);
  count = refl;
  all = omega arith;
  error = refl;
  collectors = refl;
  write_errors = refl;
  batch_size = refl;
  timed = omega arith;
}

-- If the driver's `InsertMany` answers as documented and there are collectors, `BulkInsert` of a batch
-- that is not empty returns the number of documents written, which is the batch less the failed
-- documents; it returns an error just when the driver fails with something else than write errors; one
-- batch size and one latency are observed, and `WriteErrors` grows by the failed documents, or by one
-- for such an error.
pub bulk_insert-Writes :
    (insert_many : List LogEvent → InsertManyResult)
    → Documented insert_many
    → (elapsed : ℕ) (e : LogEvent) (es : List LogEvent) (c : Collectors)
    → Writes
        (insert_many (e ∷ es))
        (length (e ∷ es))
        c
        (bulk_insert insert_many elapsed (e ∷ es) (some c))
unfolding bulk_insert
bulk_insert-Writes insert_many doc elapsed e es c =
    settle-Writes elapsed (insert_many (e ∷ es)) (length (e ∷ es)) c (doc (e ∷ es))
