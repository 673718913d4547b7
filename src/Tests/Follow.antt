-- ===== src/Tests/Follow.antt =====
-- A run of the alerter.
use distributed_logs_aggrega.Base.{
  ℕ, ◌+◌, ◌*◌, ◌≤◌, ◌≡◌, refl, Bool, true, false, String, Option, none, some, List, [], ◌∷◌, ◌++◌,
  length,
}
use distributed_logs_aggrega.Base.Int.{pos}
use distributed_logs_aggrega.Base.Channel.{Channel, recv, try_send}
use distributed_logs_aggrega.Models.{LogEvent}
use distributed_logs_aggrega.Alert.Evaluate.{evaluate}
use distributed_logs_aggrega.Alert.Rules.{load_failed, refresh_rules}
use distributed_logs_aggrega.Alert.Run.{
  Change, full_document, watching, new_stream, Alerter, begun, begin, event_of, end_stream, takes,
  sends, ends, evaluates, returns_at_end, Turns, none_yet, then,
}
use distributed_logs_aggrega.Alert.Run.Ending.{work}
use distributed_logs_aggrega.Alert.Run.Progress.{GoesOn, turns_end}
use distributed_logs_aggrega.Tests.Data.{out_of_memory}
use distributed_logs_aggrega.Tests.Alerts.{local, for_orders, dispatcher}

abbrev changes : List Change
changes = full_document out_of_memory ∷ []

abbrev begins : Alerter local
begins = record {
  dispatcher = dispatcher true (for_orders ∷ []);
  changes = changes;
  pending = none;
  out = new_stream;
  forwarding = true;
  serving = true;
  refreshing = true;
  canceled = false;
  handled = [];
}

abbrev one_queued : Channel LogEvent
one_queued = record { items = out_of_memory ∷ []; cap = 256; closed = false }

abbrev all_closed : Channel LogEvent
all_closed = record { items = []; cap = 256; closed = true }

abbrev wanted : Alerter local
wanted = record begins { changes = []; pending = some out_of_memory }

abbrev sent : Alerter local
sent = record wanted { pending = none; out = one_queued }

abbrev ended : Alerter local
ended = end_stream local sent

abbrev evaluated : Alerter local
evaluated = record ended {
  dispatcher = evaluate local out_of_memory ended.dispatcher;
  out = all_closed;
  handled = out_of_memory ∷ [];
}

abbrev returned : Alerter local
returned = record evaluated { serving = false }

to_sent : Turns local begins sent
unfolding event_of try_send
to_sent =
    then (then none_yet (takes (full_document out_of_memory) [] refl refl refl refl))
      (sends out_of_memory one_queued refl refl refl refl)

to_returned : Turns local begins returned
unfolding recv distributed_logs_aggrega.Base.Channel.recv_from
to_returned =
    then
      (then (then to_sent (ends refl refl refl refl))
        (evaluates out_of_memory all_closed refl refl refl))
      (returns_at_end refl refl refl)

begins_so :
    begin local
      (pos 7)
      (load_failed "no primary")
      (watching changes)
      (dispatcher true (for_orders ∷ []))
    ≡ begun begins
unfolding begin refresh_rules
begins_so = refl

turns_end_example : (work local to_returned ≤ 3 * length changes + 3) × GoesOn local returned
turns_end_example =
    turns_end local (pos 7) (load_failed "no primary") changes (dispatcher true (for_orders ∷ []))
      begins_so to_returned
