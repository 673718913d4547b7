-- ===== src/Tests/Runs.antt =====
-- Runs of the whole pipeline.
use distributed_logs_aggrega.Base.{
  ℕ, ◌+◌, ◌≤◌, ◌≡◌, ◌≢◌, refl, Bool, true, false, String, Option, none, some, List, [], ◌∷◌, ◌==◌,
  length, count, concat, All, arith, get_elem?, set,
}
use distributed_logs_aggrega.Base.Int.{pos}
use distributed_logs_aggrega.Base.Channel.{recv, recv_from, close_chan, try_send}
use distributed_logs_aggrega.Base.Outcome.{returns}
use distributed_logs_aggrega.Base.GoMap.{lookup, insert}
use distributed_logs_aggrega.Models.{LogEvent, validate}
use distributed_logs_aggrega.Storage.Insert.{inserted_ids}
use distributed_logs_aggrega.Ingestion.Dedup.{check_and_store_dedup, sweep, store_new}
use distributed_logs_aggrega.Ingestion.Submit.{submit, after_send, offer, deduplicate, admit}
use distributed_logs_aggrega.Ingestion.Worker.{
  Driver, received, channel_closed, context_done, round, append,
}
use distributed_logs_aggrega.Ingestion.Worker.Rounds.{limit}
use distributed_logs_aggrega.Ingestion.System.{
  Worker, System, Step, resume, with_queue, spawn, workers_of, submits, stop, receives, drained,
  scraper_leaves, stops, cancels, Reach, here, next,
}
use distributed_logs_aggrega.Ingestion.System.Started.{IsNew, IsStarted}
use distributed_logs_aggrega.Ingestion.System.Bounds.{Inv, started-Inv}
use distributed_logs_aggrega.Ingestion.System.Conservation.{
  held, entered, all_entered, started-conserves,
}
use distributed_logs_aggrega.Ingestion.System.Drain.{IsStopped, drain_complete}
use distributed_logs_aggrega.Ingestion.Buffer.{empty, Move, Moves}
use distributed_logs_aggrega.Ingestion.System.Refinement.{view, started_refines}
use distributed_logs_aggrega.Ingestion.System.Shutdown.{cancel_abandons, stop_drains}
use distributed_logs_aggrega.Ingestion.System.Duplicates.{Timely, has_key, queued_once}
use distributed_logs_aggrega.Ingestion.System.InOrder.{InOrder, started-InOrder}
use distributed_logs_aggrega.Ingestion.System.Waiting.{stop_waits}
use distributed_logs_aggrega.Tests.Data.{order_placed, at, small, small_cfg, queue_of}

abbrev placed : LogEvent
placed = record order_placed { timestamp = pos 1 }

abbrev pub writing : Driver
writing = record { insert_many = λ es. inserted_ids ("1" ∷ []); elapsed = 3 }

abbrev pub worker_with : List LogEvent → Bool → Worker
worker_with batch running = record { batch = batch; running = running }

abbrev pub first : System
first = record {
  pipeline = small;
  workers = worker_with [] true ∷ [];
  scraping = true;
  canceled = false;
  writes = [];
}

pub small-IsNew : IsNew small_cfg small
small-IsNew = record { cfg_kept = refl; nothing = refl; is_open = refl; capacity = refl }

pub first-IsStarted : IsStarted small first
unfolding workers_of spawn
first-IsStarted = record {
  pipeline = refl;
  workers = refl;
  scraper = refl;
  live = refl;
  nothing = refl;
}

-- An event is submitted, `Stop` closes the queue, the worker takes the event and leaves.
abbrev submitted : System
submitted = record first { pipeline = (submit (at 1000) order_placed small).0 }

abbrev closing : System
closing = with_queue (queue_of (placed ∷ []) true) submitted

abbrev taking : System
taking =
    resume 0 (received placed) writing (worker_with [] true) (with_queue (queue_of [] true) closing)

abbrev last : System
last = resume 0 channel_closed writing (worker_with (placed ∷ []) true) taking

to_submitted : Reach first submitted
to_submitted = next here (submits (at 1000) order_placed refl)

closes_queue : close_chan submitted.pipeline.queue ≡ returns (queue_of (placed ∷ []) true)
unfolding submit close_chan admit validate deduplicate check_and_store_dedup store_new lookup sweep
    distributed_logs_aggrega.Base.GoMap.delete_if offer after_send try_send
closes_queue = refl

to_closing : Reach first closing
to_closing = next to_submitted (stop (queue_of (placed ∷ []) true) closes_queue refl)

to_taking : Reach first taking
unfolding recv recv_from
to_taking =
    next to_closing
      (receives 0 (worker_with [] true) writing placed (queue_of [] true) (refl, refl) refl refl)

to_last : Reach first last
unfolding recv resume round append submit admit validate deduplicate check_and_store_dedup store_new
    lookup sweep distributed_logs_aggrega.Base.GoMap.delete_if offer after_send try_send recv_from
to_last = next to_taking (drained 0 (worker_with (placed ∷ []) true) writing (refl, refl) refl refl)

abbrev is_info : LogEvent → Bool
is_info e = e.level == "INFO"

started-conserves_example : count is_info (held last) ≡ count is_info (all_entered to_last)
started-conserves_example = started-conserves small-IsNew first-IsStarted to_last is_info

started-Inv_example : Inv (limit (pos 2)) last
started-Inv_example = started-Inv small-IsNew first-IsStarted to_last

drain_complete_example : last.pipeline.queue.items ≡ []
unfolding resume round append
drain_complete_example = (drain_complete small-IsNew first-IsStarted to_last refl refl (refl, tt)).0

-- The last step writes the event.
leaving : Step taking last
unfolding recv resume round append submit admit validate deduplicate check_and_store_dedup store_new
    lookup sweep distributed_logs_aggrega.Base.GoMap.delete_if offer after_send try_send recv_from
leaving = drained 0 (worker_with (placed ∷ []) true) writing (refl, refl) refl refl

started_refines_example :
    Moves (limit (pos 2)) empty (all_entered to_taking) (view taking)
    × Move (limit (pos 2)) (entered leaving) (view taking) (view last)
started_refines_example = started_refines small-IsNew first-IsStarted to_taking leaving

stop_drains_example :
    (t : System) × Reach closing t × All IsStopped t.workers × (t.pipeline.queue.items ≡ [])
stop_drains_example =
    stop_drains writing (placed ∷ []) closing 0 (worker_with [] true) refl refl (refl, refl)

-- The context is cancelled with an event in the queue.
abbrev aborted : System
aborted = record submitted { canceled = true }

cancel_abandons_example :
    (t : System) × Reach aborted t
    × (t.pipeline.queue ≡ aborted.pipeline.queue)
    × ((u : System) → Reach t u → u.writes ≡ t.writes)
cancel_abandons_example = cancel_abandons aborted refl

-- A run that is cancelled, and whose worker and scraper then leave.
abbrev cancelled : System
cancelled = record first { canceled = true }

abbrev alone : System
alone = resume 0 context_done writing (worker_with [] true) cancelled

abbrev done : System
done = record alone { scraping = false }

to_done : Reach first done
unfolding resume
to_done =
    next
      (next (next here (cancels refl))
        (stops 0 (worker_with [] true) writing (refl, refl) refl refl))
      (scraper_leaves refl refl refl)

stop_waits_example : done.canceled ≡ true
unfolding resume round
stop_waits_example = stop_waits small-IsNew first-IsStarted to_done refl ((refl, tt), refl)

-- The event is sent again while it is in the queue.
abbrev repeated : System
repeated = record submitted { pipeline = (submit (at 1100) order_placed submitted.pipeline).0 }

to_repeated : Reach first repeated
to_repeated = next to_submitted (submits (at 1100) order_placed refl)

repeated-Timely : Timely "k1" 1000 to_repeated
unfolding Timely to_repeated to_submitted
repeated-Timely = ((tt, (omega arith, omega arith)), (omega arith, omega arith))

queued_once_example : count (has_key "k1") (all_entered to_repeated) ≤ 1
queued_once_example = queued_once "k1" 1000 to_repeated (λ h. cc) tt repeated-Timely

started-InOrder_example : InOrder (all_entered to_last) last
started-InOrder_example = started-InOrder small-IsNew first-IsStarted to_last
