-- ===== src/Alert/Run/Ending.antt =====
-- How long the goroutines of the alerter can go on.
use distributed_logs_aggrega.Base.{
  ℕ, ◌+◌, ◌*◌, ◌≤◌, ◌≡◌, sym, ◌∙◌, ap, arith, Bool, true, false, Option, none, some, List, [], ◌∷◌,
  length, length-append,
}
use distributed_logs_aggrega.Base.Channel.{Channel, recv_gets}
use distributed_logs_aggrega.Models.{LogEvent, Time}
use distributed_logs_aggrega.Alert.Services.{Services, Dispatcher}
use distributed_logs_aggrega.Alert.Rules.{LoadedRules}
use distributed_logs_aggrega.Alert.Run.Invariant.{sent_item}
use distributed_logs_aggrega.Alert.Run.Order.{alerter_or}
use distributed_logs_aggrega.Alert.Run.{
  Change, full_document, undecodable, Alerter, begun, begin, watching, event_of, Turn, takes, sends,
  gives_up, ends, interrupted, evaluates, returns_at_end, leaves, refreshes, refresher_leaves,
  is_cancelled, Turns, none_yet, then,
}

module _ (sv : Services) where
  -- The ticks of the refresher and the cancellation come from outside; all else is work.
  abbrev pub is_work : {s t : Alerter sv} → Turn sv s t → Bool
  is_work (refreshes now rules b e) = false
  is_work (is_cancelled e) = false
  is_work _ = true

  abbrev one_if : Bool → ℕ
  one_if true = 1
  one_if false = 0

  pub work : {s t : Alerter sv} → Turns sv s t → ℕ
  work none_yet = 0
  work (then path st) = work path + one_if (is_work st)

  abbrev weight_of : Option LogEvent → ℕ
  weight_of none = 0
  weight_of (some ev) = 2

  -- A change is taken, sent and evaluated; each goroutine leaves once.
  abbrev left_to_do : Alerter sv → ℕ
  left_to_do s =
      3 * length s.changes
      + weight_of s.pending
      + length s.out.items
      + one_if s.forwarding
      + one_if s.serving
      + one_if s.refreshing

  weight-event_of : (c : Change) → weight_of (event_of sv c) ≤ 2
  unfolding event_of
  weight-event_of (full_document ev) = omega arith
  weight-event_of (undecodable x) = omega arith

  Turn-left_to_do :
      {s t : Alerter sv} (st : Turn sv s t) → left_to_do t + one_if (is_work st) ≤ left_to_do s
  Turn-left_to_do {s} (takes c cs f n h e) = rw e (rw (n, h, f) (omega (arith, weight-event_of c)))
  Turn-left_to_do {s} (sends ev ch f p h e) = rw e (
      rw (p, f)
        (omega (
          arith,
          ap (λ (x : Channel LogEvent). length x.items) (sent_item sv ev s.out ch h).0,
          length-append s.out.items (ev ∷ []),
        )))
  Turn-left_to_do {s} (gives_up ev f p h e) = rw e (rw (p, f) (omega arith))
  Turn-left_to_do {s} (ends f n h e) = rw e (rw (n, f) (omega arith))
  Turn-left_to_do {s} (interrupted f n h e) = rw e (rw (n, f) (omega arith))
  Turn-left_to_do {s} (evaluates ev ch f h e) =
      rw e (rw f (omega (arith, ap (λ (xs : List LogEvent). length xs) (recv_gets s.out ch h).0)))
  Turn-left_to_do {s} (returns_at_end f h e) = rw e (rw f (omega arith))
  Turn-left_to_do {s} (leaves f h e) = rw e (rw f (omega arith))
  Turn-left_to_do {s} (refreshes now rules f e) = rw e (omega arith)
  Turn-left_to_do {s} (refresher_leaves f h e) = rw e (rw f (omega arith))
  Turn-left_to_do {s} (is_cancelled e) = rw e (omega arith)

  work-left_to_do :
      {s t : Alerter sv} (path : Turns sv s t) → left_to_do t + work path ≤ left_to_do s
  unfolding work
  work-left_to_do none_yet = omega arith
  work-left_to_do (then path st) = omega (arith, work-left_to_do path, Turn-left_to_do st)

  left_to_do-begin :
      (now : Time) (rules : LoadedRules) (cs : List Change) (d : Dispatcher sv) (s : Alerter sv)
      → begin sv now rules (watching cs) d ≡ begun s
      → left_to_do s ≡ 3 * length cs + 3
  unfolding begin
  left_to_do-begin now rules cs d s e =
      sym (ap (λ s. left_to_do s) (ap (alerter_or sv s) e)) ∙ omega arith

  -- Three turns for each change, and three more.
  pub work_bounded :
      (now : Time) (rules : LoadedRules) (cs : List Change) (d : Dispatcher sv) {s t : Alerter sv}
      → begin sv now rules (watching cs) d ≡ begun s
      → (path : Turns sv s t) → work path ≤ 3 * length cs + 3
  work_bounded now rules cs d {s} e path =
      omega (arith, work-left_to_do path, left_to_do-begin now rules cs d s e)
