-- ===== src/Storage/Insert.antt =====
-- `BulkInsert` of internal/storage/mongo.go. `insert_many` stands for the driver's unordered
-- `InsertMany`, `elapsed` for the time that the call takes.
use distributed_logs_aggrega.Base.{
  ℕ, ◌+◌, ◌≤◌, ◌≡◌, String, Option, none, some, List, [], ◌∷◌, length,
}
use distributed_logs_aggrega.Base.Int.{ℤ, pos, sub_ℕ}
use distributed_logs_aggrega.Models.{LogEvent}
use distributed_logs_aggrega.Metrics.{Collectors}

-- The identifiers of the inserted documents, a `BulkWriteException` with its `WriteErrors` (the
-- positions that failed), or any other error.
pub data InsertManyResult : Type 0 where
  inserted_ids : List String → InsertManyResult
  bulk_write_exception : List ℕ → InsertManyResult
  other_error : String → InsertManyResult

-- What `BulkInsert` returns.
pub record Inserted : Type 0 where
  pub count : ℤ
  pub error : Option String

abbrev pub observe : ℕ → ℕ → Collectors → Collectors
observe elapsed size c = record c {
  write_latency = elapsed ∷ c.write_latency;
  batch_size = size ∷ c.batch_size;
}

abbrev pub add_write_errors : ℕ → Collectors → Collectors
add_write_errors n c = record c { write_errors = c.write_errors + n }

-- `if s.collectors != nil { … }`
abbrev pub when_present : (Collectors → Collectors) → Option Collectors → Option Collectors
when_present f none = none
when_present f (some c) = some (f c)

unfoldable pub settle : InsertManyResult → ℕ → Option Collectors → Option Collectors × Inserted
settle (inserted_ids ids) n cs = (cs, record { count = pos (length ids); error = none })
settle (bulk_write_exception failed) n cs = (
  when_present (add_write_errors (length failed)) cs,
  record { count = sub_ℕ n (length failed); error = none },
)
settle (other_error e) n cs =
    (when_present (add_write_errors 1) cs, record { count = pos 0; error = some e })

unfoldable pub bulk_insert :
    (List LogEvent → InsertManyResult)
    → ℕ
    → List LogEvent
    → Option Collectors
    → Option Collectors × Inserted
unfolding settle
bulk_insert insert_many elapsed [] cs = (cs, record { count = pos 0; error = none })
bulk_insert insert_many elapsed (e ∷ es) cs =
    settle (insert_many (e ∷ es)) (length (e ∷ es))
      (when_present (observe elapsed (length (e ∷ es))) cs)

-- How many documents an answer leaves unwritten, as the driver documents it.
abbrev pub failures : InsertManyResult → ℕ → ℕ
failures (inserted_ids ids) n = 0
failures (bulk_write_exception failed) n = length failed
failures (other_error e) n = n

-- What the driver documents: an identifier for each document if nothing failed, and at most one
-- error for each document.
abbrev pub Answers : ℕ → InsertManyResult → Type 0
Answers n (inserted_ids ids) = length ids ≡ n
Answers n (bulk_write_exception failed) = length failed ≤ n
Answers n (other_error e) = Unit

abbrev pub Documented : (List LogEvent → InsertManyResult) → Type 0
Documented insert_many = (es : List LogEvent) → Answers (length es) (insert_many es)
