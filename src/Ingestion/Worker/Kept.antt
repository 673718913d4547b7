-- ===== src/Ingestion/Worker/Kept.antt =====
-- The order in which one round of a worker keeps events, in internal/ingestion/pipeline.go.
use mathlib.Core.List.{Sublist, append_assoc, sublist-append_left, sublist-append_right}
use mathlib.Core.List.Sublist
use distributed_logs_aggrega.Base.{inl, inr, List, [], ◌∷◌, ◌++◌, All, All-append}
use distributed_logs_aggrega.Models.{LogEvent}
use distributed_logs_aggrega.Ingestion.Worker.{
  Driver, Local, Wake, context_done, received, channel_closed, ticked, round,
}
use distributed_logs_aggrega.Ingestion.Worker.Rounds.{
  taken, Flushes, flush-Flushes, appended, append-cases,
}

abbrev pub Events : Type 0
Events = List LogEvent

-- Events in the order of `all`, some of them left out.
abbrev pub Picks : Events → List Events → Type 0
Picks all = All (λ es. Sublist es all)

-- What a round leaves, in front of `items`.
pub record Kept (all items : Events) (l : Local) : Type 0 where
  pub batched : Sublist (l.batch ++ items) all
  pub written : Picks all l.writes

module _ (all items : Events) where
  Flushes-Kept : (l l' : Local) → Flushes l l' → Kept all items l → Kept all items l'
  Flushes-Kept l l' f k = record {
    batched = rw f.emptied (Sublist.trans (sublist-append_right l.batch items) k.batched);
    written = elim f.written [
      | inl (_, same) ↦ rw same (k.written)
      | inr (_, more) ↦ rw more (
          All-append (λ es. Sublist es all) l.writes (l.batch ∷ []) k.written
            (Sublist.trans (sublist-append_left l.batch items) k.batched, tt))
    ];
  }

  pub round-Kept :
      (w : Wake) (drv : Driver) (l : Local)
      → Kept all (taken w ++ items) l
      → Kept all items (round w drv l).0
  unfolding round
  round-Kept context_done drv l k =
      Flushes-Kept l _ (flush-Flushes drv l) (record { batched = k.batched; written = k.written })
  round-Kept channel_closed drv l k =
      Flushes-Kept l _ (flush-Flushes drv l) (record { batched = k.batched; written = k.written })
  round-Kept ticked drv l k =
      Flushes-Kept l _ (flush-Flushes drv l) (record { batched = k.batched; written = k.written })
  round-Kept (received ev) drv l k =
      let more : Kept all items (appended ev l) = record {
        batched = rw (append_assoc l.batch (ev ∷ []) items) (k.batched);
        written = k.written;
      } in
      elim (append-cases drv ev l) [
        | inl e ↦ rw e (Flushes-Kept (appended ev l) _ (flush-Flushes drv (appended ev l)) more)
        | inr (e, _) ↦ rw e more
      ]
