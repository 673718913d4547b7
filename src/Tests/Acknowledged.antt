-- ===== src/Tests/Acknowledged.antt =====
-- A request that the API accepts, and what becomes of its event.
use distributed_logs_aggrega.Base.{◌≡◌, refl, true, false, [], ◌∷◌, length, concat}
use distributed_logs_aggrega.Base.Int.{pos}
use distributed_logs_aggrega.Base.Channel.{recv, recv_from, close_chan, try_send}
use distributed_logs_aggrega.Base.Outcome.{returns}
use distributed_logs_aggrega.Storage.Insert.{when_present}
use distributed_logs_aggrega.Models.{LogEvent, validate}
use distributed_logs_aggrega.Ingestion.Dedup.{check_and_store_dedup}
use distributed_logs_aggrega.Ingestion.Submit.{
  submit, submit_batch, tally, after_send, offer, deduplicate, admit,
}
use distributed_logs_aggrega.Ingestion.Worker.{received, channel_closed, round, append}
use distributed_logs_aggrega.Ingestion.System.{System, resume, with_queue, stop, receives, drained}
use distributed_logs_aggrega.Middleware.{api, count_request, recover, metrics, cors}
use distributed_logs_aggrega.Processor.{
  ingest, ingest_events, ingest_reply, with_readings, write_json, decoded,
}
use distributed_logs_aggrega.Cmd.Ingestor.Api.{Backend, handler_of, answer_by, answer}
use distributed_logs_aggrega.Cmd.Ingestor.Api.Acknowledged.{
  IsKeyless, History, begun, requested, worked, acknowledged_written,
}
use distributed_logs_aggrega.Tests.Api.{whole}
use distributed_logs_aggrega.Tests.Data.{out_of_memory, small, queue_of}
use distributed_logs_aggrega.Tests.Requests.{first_mux, backend, post}
use distributed_logs_aggrega.Tests.Runs.{first, first-IsStarted, small-IsNew, worker_with, writing}

abbrev sending : Backend whole
sending = record backend {
  decode_request = λ body. decoded (record { events = out_of_memory ∷ [] });
}

abbrev stamped_event : LogEvent
stamped_event = record out_of_memory { timestamp = pos 1 }

abbrev accepted : System
accepted = record first {
  pipeline = record small {
    queue = queue_of (stamped_event ∷ []) false;
    collectors = when_present (count_request (post "/api/v1/logs") 202 4) small.collectors;
  };
}

to_accepted : History whole first_mux first accepted 1
unfolding answer answer_by api recover metrics cors handler_of ingest ingest_events ingest_reply
    with_readings write_json submit_batch tally submit admit validate deduplicate
    check_and_store_dedup offer after_send try_send
to_accepted = requested begun sending 4 (post "/api/v1/logs") refl refl

-- `Stop` closes the queue, the worker takes the event and leaves.
abbrev closing : System
closing = with_queue (queue_of (stamped_event ∷ []) true) accepted

abbrev taking : System
taking =
    resume 0 (received stamped_event) writing (worker_with [] true)
      (with_queue (queue_of [] true) closing)

abbrev last : System
last = resume 0 channel_closed writing (worker_with (stamped_event ∷ []) true) taking

closes_queue : close_chan accepted.pipeline.queue ≡ returns (queue_of (stamped_event ∷ []) true)
unfolding close_chan
closes_queue = refl

to_closing : History whole first_mux first closing 1
to_closing = worked to_accepted (stop (queue_of (stamped_event ∷ []) true) closes_queue refl) tt

to_taking : History whole first_mux first taking 1
unfolding recv recv_from
to_taking =
    worked to_closing
      (receives 0 (worker_with [] true) writing stamped_event (queue_of [] true) (refl, refl) refl
        refl)
      tt

to_last : History whole first_mux first last 1
unfolding recv resume round append recv_from
to_last =
    worked to_taking
      (drained 0 (worker_with (stamped_event ∷ []) true) writing (refl, refl) refl refl) tt

last-IsKeyless : IsKeyless whole first_mux to_last
unfolding IsKeyless to_last to_taking to_closing to_accepted
last-IsKeyless = (tt, ((refl, tt), tt))

acknowledged_written_example : 1 ≡ length (concat last.writes)
unfolding resume round append
acknowledged_written_example =
    acknowledged_written whole first_mux small-IsNew first-IsStarted to_last last-IsKeyless refl
      refl (refl, tt)
