-- ===== src/Ingestion/Worker.antt =====
-- `worker` of internal/ingestion/pipeline.go: one round of its loop, with the `flush` closure.
pub mod Rounds
pub mod Counting
pub mod Kept
use distributed_logs_aggrega.Base.{
  ℕ, ◌+◌, Bool, true, false, String, List, [], ◌∷◌, ◌++◌, length, if◌then◌else◌,
}
use distributed_logs_aggrega.Base.Int.{ℤ, pos, ◌+ℤ◌, leb_ℤ}
use distributed_logs_aggrega.Base.Word.{add64}
use distributed_logs_aggrega.Metrics.{Collectors}
use distributed_logs_aggrega.Models.{LogEvent}
use distributed_logs_aggrega.Storage.Insert.{InsertManyResult, bulk_insert, when_present}
use distributed_logs_aggrega.Ingestion.{Pipeline}

-- What the driver answers in this round, and how long it takes.
pub record Driver : Type 0 where
  pub insert_many : List LogEvent → InsertManyResult
  pub elapsed : ℕ

-- What a worker sees: its own batch, the shared pipeline, and the batches that the workers have
-- handed to `BulkInsert` so far, in order.
pub record Local : Type 0 where
  pub batch : List LogEvent
  pub pipeline : Pipeline
  pub writes : List (List LogEvent)

-- `IngestedTotal.Add(float64(inserted))`
abbrev pub add_ingested : ℤ → Collectors → Collectors
add_ingested n c = record c { ingested_total = c.ingested_total +ℤ n }

unfoldable pub flush_batch : Driver → List LogEvent → Local → Local
flush_batch drv [] l = l
flush_batch drv (e ∷ es) l =
    let (cs, res) = bulk_insert drv.insert_many drv.elapsed (e ∷ es) l.pipeline.collectors in
    record {
      batch = [];
      pipeline = record (l.pipeline) {
        accepted = add64 l.pipeline.accepted res.count;
        collectors = when_present (add_ingested res.count) cs;
      };
      writes = l.writes ++ (e ∷ es) ∷ [];
    }

-- The batch is emptied whether the insert succeeds or fails.
unfoldable pub flush : Driver → Local → Local
flush drv l = flush_batch drv l.batch l

-- The cases of the `select`: the context is done, an event or the end of the channel is received,
-- the ticker fires.
pub data Wake : Type 0 where
  context_done : Wake
  received : LogEvent → Wake
  channel_closed : Wake
  ticked : Wake

unfoldable pub append : Driver → LogEvent → Local → Local
append drv ev l =
    let l' : Local = record l { batch = l.batch ++ ev ∷ [] } in
    if leb_ℤ l.pipeline.cfg.batch_size (pos (length l'.batch)) then flush drv l' else l'

-- One round, and whether the worker goes on.
unfoldable pub round : Wake → Driver → Local → Local × Bool
round context_done drv l = (flush drv l, false)
round (received ev) drv l = (append drv ev l, true)
round channel_closed drv l = (flush drv l, false)
round ticked drv l = (flush drv l, true)
