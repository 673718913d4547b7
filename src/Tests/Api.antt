-- ===== src/Tests/Api.antt =====
-- Requests to the API.
use distributed_logs_aggrega.Base.{refl, true, [], ◌∷◌, arith}
use distributed_logs_aggrega.Base.Int.{ℤ}
use distributed_logs_aggrega.Http.{Request, Writer, new_writer}
use distributed_logs_aggrega.Storage.Aggregate.{Doubles, Stats}
use distributed_logs_aggrega.Storage.Buckets.{Bucket}
use distributed_logs_aggrega.Ingestion.{Pipeline}
use distributed_logs_aggrega.Processor.{decoded, ingest, ingest_single}
use distributed_logs_aggrega.Processor.Single.{SingleReplies, ingest_single-SingleReplies}
use distributed_logs_aggrega.Processor.Ingest.{Replies, ingest-Replies}
use distributed_logs_aggrega.Cmd.Ingestor.Api.{on_pipeline}
use distributed_logs_aggrega.Processor.Late.{
  Lost, through, single_handler, batch_handler, late_requests,
}
use distributed_logs_aggrega.Ingestion.Dedup.{check_and_store_dedup, sweep, store_new}
use distributed_logs_aggrega.Base.GoMap.{lookup, delete_if}
use distributed_logs_aggrega.Tests.Pipeline.{order-IsComplete}
use distributed_logs_aggrega.Tests.Data.{
  order_placed, out_of_memory, at, small, pipeline_of, queue_of,
}

abbrev pub whole : Doubles
whole = record { Double = ℤ; truncate = λ x. x; of_int64 = λ n. n; divide = λ x y. x }

abbrev fresh : Writer (Stats whole) Bucket
fresh = new_writer (Stats whole) Bucket

ingest-Replies_example :
    Replies whole (decoded (record { events = order_placed ∷ out_of_memory ∷ [] })) fresh small (
      ingest whole at (decoded (record { events = order_placed ∷ out_of_memory ∷ [] })) fresh small)
ingest-Replies_example =
    ingest-Replies whole at (decoded (record { events = order_placed ∷ out_of_memory ∷ [] })) fresh
      small refl (omega arith, omega arith)

ingest_single-SingleReplies_example :
    SingleReplies whole
      (at 1000)
      (decoded order_placed)
      fresh
      small
      (ingest_single whole (at 1000) (decoded order_placed) fresh small)
ingest_single-SingleReplies_example =
    ingest_single-SingleReplies whole (at 1000) (decoded order_placed) fresh small refl

-- A batch, then an event that finds the queue full.
abbrev stopped : Pipeline
stopped = pipeline_of (queue_of [] true)

abbrev post_logs : Request
post_logs = record { method = "POST"; path = "/api/v1/logs"; param = λ k. ""; body = "" }

late_requests_example :
    Lost whole on_pipeline
      (at 1000)
      order_placed
      stopped
      (through whole on_pipeline 4 (single_handler whole (at 1000) order_placed) post_logs stopped)
    × Lost whole on_pipeline (at 1000) order_placed stopped (
        through whole on_pipeline 4
          (batch_handler whole (λ i. at 1000) (order_placed ∷ []))
          post_logs
          stopped)
unfolding check_and_store_dedup sweep store_new lookup delete_if
late_requests_example =
    late_requests whole on_pipeline 4 (λ i. at 1000) order_placed [] post_logs stopped refl refl
      order-IsComplete refl (omega arith)
