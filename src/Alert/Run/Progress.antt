-- ===== src/Alert/Run/Progress.antt =====
-- The goroutines of the alerter never wait for each other in vain.
use distributed_logs_aggrega.Base.{
  ◌+◌, ◌*◌, ◌≤◌, ◌≡◌, refl, ap, subst, arith, ◌⊎◌, inl, inr, true, false, Option, none, some, List,
  [], ◌∷◌, length, ltb, ltb→ge, Bool-cases,
}
use distributed_logs_aggrega.Base.Channel.{recv_gets, recv_dry, recv_next, try_send_room}
use distributed_logs_aggrega.Models.{LogEvent, Time}
use distributed_logs_aggrega.Alert.Services.{Services, Dispatcher}
use distributed_logs_aggrega.Alert.Rules.{LoadedRules}
use distributed_logs_aggrega.Alert.Run.{
  Change, Alerter, begun, begin, watching, Turn, takes, sends, gives_up, ends, interrupted,
  evaluates, returns_at_end, leaves, refreshes, refresher_leaves, is_cancelled, Turns, none_yet,
  then,
}
use distributed_logs_aggrega.Alert.Run.Invariant.{InOrder, decoded_events, Turns-InOrder}
use distributed_logs_aggrega.Alert.Run.Order.{begin-InOrder, alerter_or}
use distributed_logs_aggrega.Alert.Run.Ending.{is_work, work, work_bounded}

module _ (sv : Services) where
  -- The producer closes the channel when it leaves.
  abbrev IsClosedAfter : Alerter sv → Type 0
  IsClosedAfter s = s.forwarding ≡ false → s.out.closed ≡ true

  Turn-IsClosedAfter : {s t : Alerter sv} → Turn sv s t → IsClosedAfter s → IsClosedAfter t
  Turn-IsClosedAfter {s} (takes c cs f n h e) k = rw e k
  Turn-IsClosedAfter {s} (sends ev ch f p h e) k = rw e (λ off. cc (off, f))
  Turn-IsClosedAfter {s} (gives_up ev f p h e) k = rw e (λ off. refl)
  Turn-IsClosedAfter {s} (ends f n h e) k = rw e (λ off. refl)
  Turn-IsClosedAfter {s} (interrupted f n h e) k = rw e (λ off. refl)
  Turn-IsClosedAfter {s} (evaluates ev ch f h e) k =
      rw e (λ off. cc ((recv_gets s.out ch h).2, k off))
  Turn-IsClosedAfter {s} (returns_at_end f h e) k = rw e k
  Turn-IsClosedAfter {s} (leaves f h e) k = rw e k
  Turn-IsClosedAfter {s} (refreshes now rules f e) k = rw e k
  Turn-IsClosedAfter {s} (refresher_leaves f h e) k = rw e k
  Turn-IsClosedAfter {s} (is_cancelled e) k = rw e k

  Turns-IsClosedAfter : {s t : Alerter sv} → Turns sv s t → IsClosedAfter s → IsClosedAfter t
  Turns-IsClosedAfter none_yet k = k
  Turns-IsClosedAfter (then path st) k = Turn-IsClosedAfter st (Turns-IsClosedAfter path k)

  -- A turn that is work.
  abbrev pub Works : Alerter sv → Type 0
  Works s = (t : Alerter sv) × (st : Turn sv s t) × (is_work sv st ≡ true)

  -- `Run` takes what is in the channel, or sees its end.
  serve_turn :
      (s : Alerter sv) (items : List LogEvent)
      → s.out.items ≡ items
      → s.serving ≡ true
      → IsClosedAfter s
      → s.forwarding ≡ false ⊎ (1 ≤ length items)
      → Works s
  serve_turn s [] e on k (inl off) = (_, returns_at_end on (recv_dry s.out (k off, e)) refl, refl)
  serve_turn s [] e on k (inr h) = absurd (omega (arith, h))
  serve_turn s (x ∷ xs) e on k h = (_, evaluates x _ on (recv_next s.out x xs e) refl, refl)

  module _ (all : List LogEvent) (s : Alerter sv) (v : InOrder sv all s) (k : IsClosedAfter s)
      (on : s.forwarding ≡ true) where
    -- The producer has an event, and the channel is full.
    full_turn : (ev : LogEvent) → s.pending ≡ some ev → s.out.cap ≤ length s.out.items → Works s
    full_turn ev p full = elim (Bool-cases s.serving) [
      | inl serving ↦ serve_turn s s.out.items refl serving k (inr (omega (arith, full, v.room)))
      | inr left ↦ elim (Bool-cases s.canceled) [
        | inl c ↦ (_, gives_up ev on p c refl, refl)
        | inr c ↦ cc ((v.over left c).0, on)
      ]
    ]

    send_turn : (ev : LogEvent) → s.pending ≡ some ev → Works s
    send_turn ev p = elim (Bool-cases (ltb (length s.out.items) s.out.cap)) [
      | inl room ↦ (_, sends ev _ on p (try_send_room ev s.out (v.is_open on) room) refl, refl)
      | inr full ↦ full_turn ev p (ltb→ge _ _ full)
    ]

    take_turn : (cs : List Change) → s.changes ≡ cs → s.pending ≡ none → Works s
    take_turn [] e n = (_, ends on n e refl, refl)
    take_turn (c ∷ cs) e n = (_, takes c cs on n e refl, refl)

    forward_turn : (o : Option LogEvent) → s.pending ≡ o → Works s
    forward_turn none e = take_turn s.changes refl e
    forward_turn (some ev) e = send_turn ev e

  -- The producer and `Run` have both left, or some goroutine can go on.
  abbrev pub GoesOn : Alerter sv → Type 0
  GoesOn s = ((s.forwarding ≡ false) × (s.serving ≡ false)) ⊎ Works s

  goes_on : (all : List LogEvent) (s : Alerter sv) → InOrder sv all s → IsClosedAfter s → GoesOn s
  goes_on all s v k = elim (Bool-cases s.forwarding) [
    | inl on ↦ inr (forward_turn all s v k on s.pending refl)
    | inr off ↦ elim (Bool-cases s.serving) [
      | inl serving ↦ inr (serve_turn s s.out.items refl serving k (inl off))
      | inr left ↦ inl (off, left)
    ]
  ]

  begun-IsClosedAfter :
      (now : Time) (rules : LoadedRules) (cs : List Change) (d : Dispatcher sv) (s : Alerter sv)
      → begin sv now rules (watching cs) d ≡ begun s
      → IsClosedAfter s
  unfolding begin
  begun-IsClosedAfter now rules cs d s e = subst IsClosedAfter (ap (alerter_or sv s) e) (λ off. cc)

  -- However the goroutines of the alerter take turns, they come to an end if the change stream does:
  -- besides the ticks of the refresher and the cancellation, a run has at most three turns for each
  -- change, and three more; and as long as the producer of the stream or `Run` has not left, one of
  -- the goroutines has such a turn to take.
  pub turns_end :
      (now : Time) (rules : LoadedRules) (cs : List Change) (d : Dispatcher sv) {s t : Alerter sv}
      → begin sv now rules (watching cs) d ≡ begun s
      → (path : Turns sv s t) → (work sv path ≤ 3 * length cs + 3) × GoesOn t
  turns_end now rules cs d {s} {t} e path = (
    work_bounded sv now rules cs d e path,
    goes_on (decoded_events sv cs) t
        (Turns-InOrder sv (decoded_events sv cs) (begin-InOrder sv now rules cs d s e) path)
        (Turns-IsClosedAfter path (begun-IsClosedAfter now rules cs d s e)),
  )
