-- ===== src/Alert/Run/Invariant.antt =====
-- What every turn of the alerter keeps: the events evaluated, waiting and still to come are those of
-- the change stream, in its order.
use distributed_logs_aggrega.Base.{
  suc, ◌≤◌, ◌≡◌, refl, sym, ap, ◌∙◌, true, false, Option, none, some, List, [], ◌∷◌, ◌++◌, length,
  length-append, arith, inl, inr, Bool-cases,
}
use mathlib.Core.List.{append_assoc}
use distributed_logs_aggrega.Base.Channel.{
  recv_gets, recv_closes, Channel, gets, closes, recv, try_send,
}
use distributed_logs_aggrega.Base.Outcome.{returns}
use distributed_logs_aggrega.Models.{LogEvent}
use distributed_logs_aggrega.Alert.Services.{Services, Dispatcher}
use distributed_logs_aggrega.Alert.Run.{
  Change, Alerter, event_of, end_stream, Turn, takes, sends, gives_up, ends, interrupted, evaluates,
  returns_at_end, leaves, refreshes, refresher_leaves, is_cancelled, Turns, none_yet, then,
}

abbrev pub one_or_none : Option LogEvent → List LogEvent
one_or_none none = []
one_or_none (some ev) = ev ∷ []

module _ (sv : Services) where
  -- The events of a change stream, without what does not decode.
  abbrev pub decoded_events : List Change → List LogEvent
  decoded_events [] = []
  decoded_events (c ∷ cs) = one_or_none (event_of sv c) ++ decoded_events cs

  abbrev pub awaited : Alerter sv → List LogEvent
  awaited s = one_or_none s.pending ++ decoded_events s.changes

  -- Of `all` the events of the stream, `rest` is what is not yet in the channel or never will be.
  pub record InOrder (all : List LogEvent) (s : Alerter sv) : Type 0 where
    pub rest : List LogEvent
    pub whole : s.handled ++ (s.out.items ++ rest) ≡ all
    pub ahead : s.forwarding ≡ true → rest ≡ awaited s
    pub shut : s.forwarding ≡ false → s.canceled ≡ false → rest ≡ []
    pub is_open : s.forwarding ≡ true → s.out.closed ≡ false
    pub over : s.serving ≡ false → s.canceled ≡ false → (s.forwarding ≡ false) × (s.out.items ≡ [])
    pub fits : length s.out.items ≤ 256
    pub room : s.out.cap ≡ 256

  pub sent_item :
      (ev : LogEvent) (c ch : Channel LogEvent)
      → try_send ev c ≡ (ch, returns true)
      → (ch ≡ record c { items = c.items ++ ev ∷ [] }) × (suc (length c.items) ≤ c.cap)
  unfolding try_send
  sent_item ev c ch h = ground arith

  kept :
      (all : List LogEvent) (s t : Alerter sv)
      → t.handled ≡ s.handled
      → t.out ≡ s.out
      → t.pending ≡ s.pending
      → t.changes ≡ s.changes
      → t.forwarding ≡ s.forwarding
      → (t.canceled ≡ false → s.canceled ≡ false)
      → (t.serving ≡ false → t.canceled ≡ false → (t.forwarding ≡ false) × (t.out.items ≡ []))
      → InOrder all s
      → InOrder all t
  kept all s t h o p c f live over v = record {
    rest = v.rest;
    whole = rw (h, o) (v.whole);
    ahead = λ on. v.ahead (sym f ∙ on) ∙ rw (p, c) refl;
    shut = λ off l. v.shut (sym f ∙ off) (live l);
    is_open = λ on. rw o (v.is_open (sym f ∙ on));
    over = over;
    fits = rw o (v.fits);
    room = rw o (v.room);
  }

  -- The producer ends: `why` says that the context is cancelled, or that nothing is left.
  ended :
      (all : List LogEvent) (s : Alerter sv)
      → (v : InOrder all s) → s.forwarding ≡ true
      → (s.canceled ≡ false → v.rest ≡ [])
      → InOrder all (end_stream sv s)
  ended all s v on why = record {
    rest = v.rest;
    whole = v.whole;
    ahead = λ h. cc;
    shut = λ off l. why l;
    is_open = λ h. cc;
    over = λ off l. (refl, (v.over off l).1);
    fits = v.fits;
    room = v.room;
  }

  sends-InOrder :
      (all : List LogEvent) (s : Alerter sv) (ev : LogEvent) (ch : Channel LogEvent)
      → InOrder all s
      → s.forwarding ≡ true
      → s.pending ≡ some ev
      → try_send ev s.out ≡ (ch, returns true)
      → InOrder all (record s { pending = none; out = ch })
  sends-InOrder all s ev ch v on p got =
      let (same, room) = sent_item ev s.out ch got in
      let waits : v.rest ≡ ev ∷ decoded_events s.changes =
        v.ahead on ∙ ap (λ o. one_or_none o ++ decoded_events s.changes) p in
      rw same (record {
        rest = decoded_events s.changes;
        whole =
            ap (λ (xs : List LogEvent). s.handled ++ xs)
              (append_assoc s.out.items (ev ∷ []) (decoded_events s.changes))
            ∙ ap (λ (xs : List LogEvent). s.handled ++ (s.out.items ++ xs)) (sym waits)
            ∙ v.whole;
        ahead = λ h. refl;
        shut = λ off l. cc (off, on);
        is_open = v.is_open;
        over = λ off l. cc ((v.over off l).0, on);
        fits = omega (arith, length-append s.out.items (ev ∷ []), v.room);
        room = v.room;
      })

  evaluates-InOrder :
      (all : List LogEvent) (s : Alerter sv) (ev : LogEvent) (ch : Channel LogEvent)
      (d : Dispatcher sv)
      → InOrder all s
      → s.serving ≡ true
      → recv s.out ≡ gets ev ch
      → InOrder all (record s { dispatcher = d; out = ch; handled = s.handled ++ ev ∷ [] })
  evaluates-InOrder all s ev ch d v srv got =
      let (items, cap, closed) = recv_gets s.out ch got in
      record {
        rest = v.rest;
        whole =
            append_assoc s.handled (ev ∷ []) (ch.items ++ v.rest)
            ∙ ap (λ (xs : List LogEvent). s.handled ++ (xs ++ v.rest)) (sym items)
            ∙ v.whole;
        ahead = v.ahead;
        shut = v.shut;
        is_open = λ on. closed ∙ v.is_open on;
        over = λ off l. cc (off, srv);
        fits = omega (arith, v.fits, ap (λ (xs : List LogEvent). length xs) items);
        room = cap ∙ v.room;
      }

  returned_dry :
      (all : List LogEvent) (s : Alerter sv)
      → InOrder all s
      → recv s.out ≡ closes
      → (s.forwarding ≡ false) × (s.out.items ≡ [])
  returned_dry all s v c = elim (Bool-cases s.forwarding) [
    | inl on ↦ cc (v.is_open on, (recv_closes s.out c).0)
    | inr off ↦ (off, (recv_closes s.out c).1)
  ]

  Turn-InOrder :
      (all : List LogEvent) {s t : Alerter sv} → Turn sv s t → InOrder all s → InOrder all t
  Turn-InOrder all {s} (takes c cs on p ch e) v = rw e (record {
    rest = v.rest;
    whole = v.whole;
    ahead = λ _.
        v.ahead on ∙ ap (λ o. one_or_none o ++ decoded_events s.changes) p ∙ ap decoded_events ch;
    shut = v.shut;
    is_open = v.is_open;
    over = v.over;
    fits = v.fits;
    room = v.room;
  })
  Turn-InOrder all {s} (sends ev ch on p got e) v = rw e (sends-InOrder all s ev ch v on p got)
  Turn-InOrder all {s} (gives_up ev on p c e) v = rw e (ended all s v on (λ l. cc (l, c)))
  Turn-InOrder all {s} (ends on p none_left e) v = rw e (
      ended all s v on (λ l.
        v.ahead on
        ∙ ap (λ o. one_or_none o ++ decoded_events s.changes) p
        ∙ ap decoded_events none_left))
  Turn-InOrder all {s} (interrupted on p c e) v = rw e (ended all s v on (λ l. cc (l, c)))
  Turn-InOrder all {s} (evaluates ev ch srv got e) v =
      rw e (evaluates-InOrder all s ev ch _ v srv got)
  Turn-InOrder all {s} (returns_at_end srv c e) v =
      rw e (kept all s _ refl refl refl refl refl (λ l. l) (λ _ _. returned_dry all s v c) v)
  Turn-InOrder all {s} (leaves srv c e) v =
      rw e (kept all s _ refl refl refl refl refl (λ l. l) (λ _ l. cc (l, c)) v)
  Turn-InOrder all {s} (refreshes now rules on e) v =
      rw e (kept all s _ refl refl refl refl refl (λ l. l) v.over v)
  Turn-InOrder all {s} (refresher_leaves on c e) v =
      rw e (kept all s _ refl refl refl refl refl (λ l. l) v.over v)
  Turn-InOrder all {s} (is_cancelled e) v =
      rw e (kept all s _ refl refl refl refl refl (λ l. cc) (λ _ l. cc) v)

  pub Turns-InOrder :
      (all : List LogEvent) {s t : Alerter sv} → InOrder all s → Turns sv s t → InOrder all t
  Turns-InOrder all v none_yet = v
  Turns-InOrder all v (then path st) = Turn-InOrder all st (Turns-InOrder all v path)
