-- ===== src/Storage/Buckets.antt =====
-- `BucketByMinute` of internal/storage/mongo.go. `aggregate` stands for
-- the driver, `format` for the format RFC 3339 of a time.
use distributed_logs_aggrega.Base.{String, List, map}
use distributed_logs_aggrega.Base.Int.{ℤ, pos}
use distributed_logs_aggrega.Models.{Time, zero_time}
use distributed_logs_aggrega.Storage.Documents.{
  Bson, int32, text, date, array, document, Items, nil, cons, Fields, end, field, get, to_int64,
}

pub record Bucket : Type 0 where
  pub ts : String
  pub count : ℤ
  pub errors : ℤ

-- What `BucketByMinute` returns.
pub data BucketsResult : Type 0 where
  bucketed : List Bucket → BucketsResult
  buckets_failed : String → BucketsResult

module _ (Double : Type 0) where
  abbrev one : String → Bson Double → Bson Double
  one k v = document (field k v end)

  abbrev pair : Bson Double → Bson Double → Bson Double
  pair a b = array (cons a (cons b nil))

  -- `1` for the levels ERROR and FATAL, `0` for others
  abbrev is_error_item : Bson Double
  is_error_item = one "$cond" (
      array (
        cons (one "$in" (pair (text "$level") (pair (text "ERROR") (text "FATAL"))))
          (cons (int32 (pos 1)) (cons (int32 (pos 0)) nil))))

  abbrev minute_of : Bson Double
  minute_of =
      one "$dateTrunc"
        (document (field "date" (text "$timestamp") (field "unit" (text "minute") end)))

  unfoldable pub bucket_pipeline : Time → Items Double
  bucket_pipeline since = cons (one "$match" (one "timestamp" (one "$gte" (date since)))) (
      cons
        (one "$group" (
          document (
            field "_id" minute_of (
              field "count" (one "$sum" (int32 (pos 1)))
                (field "errors" (one "$sum" is_error_item) end)))))
        (cons (one "$sort" (one "_id" (int32 (pos 1))))
          (cons (one "$limit" (int32 (pos 120))) nil)))

  -- With `ts, _ :=` a value of another type leaves the zero time.
  abbrev date_or_zero : Bson Double → Time
  date_or_zero (date t) = t
  date_or_zero _ = zero_time

  unfoldable pub bucket_of : (Double → ℤ) → (Time → String) → Fields Double → Bucket
  bucket_of truncate format r = record {
    ts = format (date_or_zero (get Double "_id" r));
    count = to_int64 Double truncate (get Double "count" r);
    errors = to_int64 Double truncate (get Double "errors" r);
  }

  -- The documents of the cursor, or the error of `Aggregate` or of `All`.
  pub data Rows : Type 0 where
    rows : List (Fields Double) → Rows
    rows_failed : String → Rows

  unfoldable pub buckets_of : (Double → ℤ) → (Time → String) → Rows → BucketsResult
  buckets_of truncate format (rows_failed e) = buckets_failed e
  buckets_of truncate format (rows raw) = bucketed (map (bucket_of truncate format) raw)

  unfoldable pub bucket_by_minute :
      (Double → ℤ) → (Time → String) → (Items Double → Rows) → Time → BucketsResult
  bucket_by_minute truncate format aggregate since =
      buckets_of truncate format (aggregate (bucket_pipeline since))
