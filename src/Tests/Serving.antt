-- ===== src/Tests/Serving.antt =====
-- A run of the ingestor, from its start to its end.
use distributed_logs_aggrega.Base.{
  ◌≡◌, refl, ◌⊎◌, inl, inr, true, false, Bool-cases, All, List, [], ◌∷◌, Option, none, some,
}
use distributed_logs_aggrega.Base.Int.{pos}
use distributed_logs_aggrega.Base.Channel.{Channel}
use distributed_logs_aggrega.Config.{Config, default}
use distributed_logs_aggrega.Storage.Setup.{Mongo}
use distributed_logs_aggrega.Ingestion.{Pipeline}
use distributed_logs_aggrega.Ingestion.Submit.{submit}
use distributed_logs_aggrega.Ingestion.System.{
  System, Reach, next, cancels, scraper_leaves, IsDone, with_queue,
}
use distributed_logs_aggrega.Ingestion.System.Shutdown.{idle_driver, cancel_may_leave}
use distributed_logs_aggrega.Cmd.Process.{Process}
use distributed_logs_aggrega.Cmd.Ingestor.{Interruption, signal, cancel_context}
use distributed_logs_aggrega.Tests.Commands.{healthy}
use distributed_logs_aggrega.Tests.Runs.{first}
use distributed_logs_aggrega.Tests.Data.{order_placed, at, small_cfg, queue_of}

-- One event is submitted, then comes the signal.
abbrev serve : System → System × Interruption
serve s = (record s { pipeline = (submit (at 1000) order_placed s.pipeline).0 }, signal)

-- The cancelled workers leave, and then the scraper.
left : (s : System) → s.canceled ≡ true → (t : System) × Reach s t × IsDone t
left s c =
    let (t, path, stopped, same) = cancel_may_leave idle_driver s c in
    elim (Bool-cases t.scraping) [
      | inl on ↦ (
        record t { canceled = true; scraping = false },
        next (next path (cancels refl)) (scraper_leaves on refl refl),
        (stopped, refl),
      )
      | inr off ↦ (t, path, (stopped, off))
    ]

abbrev leave_if : (s : System) → (s.canceled ≡ true) ⊎ (s.canceled ≡ false) → System
leave_if s (inl c) = (left s c).0
leave_if s (inr c) = s

abbrev finish : System → System
finish s = leave_if s (Bool-cases s.canceled)

abbrev cfg : Config
cfg = record default { ingestor = small_cfg }

abbrev last : System
last = finish (
    with_queue (queue_of (record order_placed { timestamp = pos 1 } ∷ []) true)
      (cancel_context healthy (serve first).0))
