-- ===== src/Cmd/Ingestor/Accounts.antt =====
-- What has become of the events when the ingestor ends.
use distributed_logs_aggrega.Base.{◌+◌, ◌≡◌, refl, true, Bool, count, concat}
use distributed_logs_aggrega.Config.Load.{LoadResult}
use distributed_logs_aggrega.Models.{LogEvent}
use distributed_logs_aggrega.Storage.Setup.{Mongo}
use distributed_logs_aggrega.Ingestion.System.{
  System, Reach, with_queue, IsDone, next, cancels, stop,
}
use distributed_logs_aggrega.Ingestion.System.Conservation.{all_entered}
use distributed_logs_aggrega.Ingestion.System.Shutdown.{Reach_trans}
use distributed_logs_aggrega.Cmd.Process.{Process}
use distributed_logs_aggrega.Cmd.Ingestor.{Interruption, cancel_context}
use distributed_logs_aggrega.Cmd.Ingestor.Ends.{Ended, Ends}

-- What the goroutines do while the ingestor serves, and until `Stop` returns.
module _ (m : Mongo) (serve : System → System × Interruption) (finish : System → System)
    (serves : (s : System) → Reach s (serve s).0)
    (finishes : (s : System) → s.canceled ≡ true → Reach s (finish s) × IsDone (finish s)) where
  module _ {r : LoadResult} {t : System} {p : Process} (e : Ended m serve finish r t p) where
    -- What serving has left, cancelled and closed.
    abbrev closing : System
    closing = with_queue e.queue (cancel_context m (serve e.first).0)

    -- The steps of the pipeline from its start: those while the ingestor serves, the cancellation, the
    -- closing of the queue, and those until `Stop` returns.
    unfoldable pub course : Reach e.first (finish closing)
    course =
        Reach_trans (next (next (serves e.first) (cancels refl)) (stop e.queue e.closes refl))
          (finishes closing refl).0

    -- Of what was queued on that course, all is written or still in the queue.
    pub record Accounted : Type 0 where
      pub done : IsDone t
      pub all :
          (test : LogEvent → Bool)
          → count test (concat t.writes) + count test t.pipeline.queue.items
            ≡ count test (all_entered course)
