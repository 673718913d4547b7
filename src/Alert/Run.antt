-- ===== src/Alert/Run.antt =====
-- `Run` and `rulesRefresher` of internal/alert/dispatcher.go with the producer of `WatchErrors` in
-- internal/storage/mongo.go, as a step relation. The change stream of the driver is the list of what
-- its `Next` and `Decode` will give.
pub mod Invariant
pub mod Order
pub mod Ending
pub mod Progress
use distributed_logs_aggrega.Base.{
  ℕ, ◌≡◌, Bool, true, false, String, Option, none, some, List, [], ◌∷◌, ◌++◌,
}
use distributed_logs_aggrega.Base.Channel.{
  Channel, Received, gets, closes, recv, try_send, close_chan,
}
use distributed_logs_aggrega.Base.Outcome.{Outcome, returns}
use distributed_logs_aggrega.Models.{LogEvent, Time}
use distributed_logs_aggrega.Alert.Services.{Services, Dispatcher}
use distributed_logs_aggrega.Alert.Rules.{LoadedRules, refresh_rules}
use distributed_logs_aggrega.Alert.Evaluate.{evaluate}

-- A change that decodes to an event, or one that does not.
pub data Change : Type 0 where
  full_document : LogEvent → Change
  undecodable : String → Change

-- What `Watch` gives.
pub data Watched : Type 0 where
  watching : List Change → Watched
  watch_failed : String → Watched

-- `make(chan models.LogEvent, 256)`
abbrev pub new_stream : Channel LogEvent
new_stream = record { items = []; cap = 256; closed = false }

module _ (sv : Services) where
  -- `changes` is what the change stream still gives, `pending` the event that the producer wants to
  -- send; `forwarding`, `serving` and `refreshing` say which goroutines are in their loops; `handled`
  -- are the events that were evaluated.
  pub record Alerter : Type 0 where
    pub dispatcher : Dispatcher sv
    pub changes : List Change
    pub pending : Option LogEvent
    pub out : Channel LogEvent
    pub forwarding : Bool
    pub serving : Bool
    pub refreshing : Bool
    pub canceled : Bool
    pub handled : List LogEvent

  -- How `Run` begins.
  pub data Begun : Type 0 where
    begun : Alerter → Begun
    not_opened : String → Begun

  unfoldable pub begin : Time → LoadedRules → Watched → Dispatcher sv → Begun
  begin now rules (watch_failed e) d = not_opened e
  begin now rules (watching changes) d = begun (record {
    dispatcher = refresh_rules sv now rules d;
    changes = changes;
    pending = none;
    out = new_stream;
    forwarding = true;
    serving = true;
    refreshing = true;
    canceled = false;
    handled = [];
  })

  -- The event of a change, which is sent next; a change that does not decode is skipped.
  unfoldable pub event_of : Change → Option LogEvent
  event_of (full_document ev) = some ev
  event_of (undecodable e) = none

  -- `close(out)`, deferred
  abbrev pub end_stream : Alerter → Alerter
  end_stream s = record s {
    pending = none;
    forwarding = false;
    out = record (s.out) { closed = true };
  }

  -- A tick of `rulesRefresher`; an error of the loading is logged, and the rules stay.
  abbrev pub refreshed : Time → LoadedRules → Alerter → Alerter
  refreshed now rules s = record s { dispatcher = refresh_rules sv now rules s.dispatcher }

  -- The producer takes a change, sends, gives up at a cancelled context, or ends with the stream;
  -- `Run` evaluates an event, ends with the channel, or leaves at a cancelled context; the refresher
  -- refreshes, or leaves.
  pub data Turn (s t : Alerter) : Type 0 where
    takes :
        (c : Change) (cs : List Change)
        → s.forwarding ≡ true
        → s.pending ≡ none
        → s.changes ≡ c ∷ cs
        → t ≡ record s { changes = cs; pending = event_of c }
        → Turn s t
    sends :
        (ev : LogEvent) (ch : Channel LogEvent)
        → s.forwarding ≡ true
        → s.pending ≡ some ev
        → try_send ev s.out ≡ (ch, returns true)
        → t ≡ record s { pending = none; out = ch }
        → Turn s t
    gives_up :
        (ev : LogEvent)
        → s.forwarding ≡ true
        → s.pending ≡ some ev
        → s.canceled ≡ true
        → t ≡ end_stream s
        → Turn s t
    ends : s.forwarding ≡ true → s.pending ≡ none → s.changes ≡ [] → t ≡ end_stream s → Turn s t
    interrupted :
        s.forwarding ≡ true → s.pending ≡ none → s.canceled ≡ true → t ≡ end_stream s → Turn s t
    evaluates :
        (ev : LogEvent) (ch : Channel LogEvent)
        → s.serving ≡ true
        → recv s.out ≡ gets ev ch
        → t ≡ record s {
          dispatcher = evaluate sv ev s.dispatcher;
          out = ch;
          handled = s.handled ++ ev ∷ [];
        }
        → Turn s t
    returns_at_end :
        s.serving ≡ true → recv s.out ≡ closes → t ≡ record s { serving = false } → Turn s t
    leaves : s.serving ≡ true → s.canceled ≡ true → t ≡ record s { serving = false } → Turn s t
    refreshes :
        (now : Time) (rules : LoadedRules)
        → s.refreshing ≡ true
        → t ≡ refreshed now rules s
        → Turn s t
    refresher_leaves :
        s.refreshing ≡ true → s.canceled ≡ true → t ≡ record s { refreshing = false } → Turn s t
    is_cancelled : t ≡ record s { canceled = true } → Turn s t

  pub data Turns (first : Alerter) : Alerter → Type 0 where
    none_yet : Turns first first
    then : {s t : Alerter} → Turns first s → Turn s t → Turns first t
