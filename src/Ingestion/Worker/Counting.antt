-- ===== src/Ingestion/Worker/Counting.antt =====
-- What a round of a worker adds to the counters of written events.
use distributed_logs_aggrega.Base.{
  ℕ, ◌+◌, ◌-◌, ◌≤◌, ◌<◌, ◌≡◌, refl, sym, ap, ◌∙◌, ◌⊎◌, inl, inr, Bool, true, false, Option, none,
  some, List, [], ◌∷◌, ◌++◌, length, arith,
}
use distributed_logs_aggrega.Base.Int.{ℤ, pos, negsuc, ◌+ℤ◌}
use distributed_logs_aggrega.Base.Word.{add64, modulus}
use distributed_logs_aggrega.Metrics.{Collectors}
use distributed_logs_aggrega.Models.{LogEvent}
use distributed_logs_aggrega.Storage.Insert.{
  InsertManyResult, inserted_ids, bulk_write_exception, other_error, settle, bulk_insert, failures,
  Answers, Documented, observe, when_present,
}
use distributed_logs_aggrega.Ingestion.{Pipeline}
use distributed_logs_aggrega.Ingestion.Worker.{
  Driver, Local, Wake, context_done, received, channel_closed, ticked, flush_batch, flush, round,
  add_ingested,
}
use distributed_logs_aggrega.Ingestion.Worker.Rounds.{appended, append-cases}

abbrev pub ingested_of : Option Collectors → ℤ
ingested_of none = pos 0
ingested_of (some c) = c.ingested_total

abbrev pub has_collectors : Option Collectors → Bool
has_collectors none = false
has_collectors (some c) = true

settle-count :
    (r : InsertManyResult) (n : ℕ) (cs : Option Collectors)
    → Answers n r
    → ((settle r n cs).1.count ≡ pos (n - failures r n)) × (failures r n ≤ n)
unfolding settle
settle-count (inserted_ids ids) n cs h = ground arith
settle-count (bulk_write_exception failed) n cs h = ground arith
settle-count (other_error e) n cs h = ground arith

settle-ingested_of :
    (r : InsertManyResult) (n : ℕ) (cs : Option Collectors)
    → (ingested_of (settle r n cs).0 ≡ ingested_of cs)
      × (has_collectors (settle r n cs).0 ≡ has_collectors cs)
unfolding settle
settle-ingested_of (inserted_ids ids) n cs = (refl, refl)
settle-ingested_of (bulk_write_exception failed) n none = (refl, refl)
settle-ingested_of (bulk_write_exception failed) n (some c) = (refl, refl)
settle-ingested_of (other_error e) n none = (refl, refl)
settle-ingested_of (other_error e) n (some c) = (refl, refl)

-- `written` and `lost` are the events of this round that the store has written and has not.
pub record Counted (drv : Driver) (p : Pipeline) (ws : List (List LogEvent)) (l' : Local)
    : Type 0 where
  pub written : ℕ
  pub lost : ℕ
  pub accepted : l'.pipeline.accepted ≡ add64 p.accepted (pos written)
  pub ingested :
      has_collectors p.collectors ≡ true
      → ingested_of l'.pipeline.collectors ≡ ingested_of p.collectors +ℤ pos written
  pub handed :
      ((l'.writes ≡ ws) × (written + lost ≡ 0))
      ⊎ ((batch : List LogEvent) × (l'.writes ≡ ws ++ batch ∷ [])
          × (written + lost ≡ length batch)
          × (lost ≡ failures (drv.insert_many batch) (length batch)))

add_zero : (z : ℤ) → z +ℤ pos 0 ≡ z
unfolding ◌+ℤ◌
add_zero (pos n) = ground arith
add_zero (negsuc n) = ground arith

observed :
    (elapsed n : ℕ) (cs : Option Collectors)
    → (ingested_of (when_present (observe elapsed n) cs) ≡ ingested_of cs)
      × (has_collectors (when_present (observe elapsed n) cs) ≡ has_collectors cs)
observed elapsed n none = (refl, refl)
observed elapsed n (some c) = (refl, refl)

adds_ingested :
    (k : ℤ) (cs cs' : Option Collectors)
    → ingested_of cs' ≡ ingested_of cs
    → has_collectors cs' ≡ has_collectors cs
    → has_collectors cs ≡ true
    → ingested_of (when_present (add_ingested k) cs') ≡ ingested_of cs +ℤ k
adds_ingested k cs none e h some_cs = cc
adds_ingested k cs (some c) e h some_cs = ap (λ z. z +ℤ k) e

same-Counted :
    (drv : Driver) (l : Local) (batch : List LogEvent)
    → l.pipeline.accepted < modulus
    → Counted drv l.pipeline l.writes (record l { batch = batch })
unfolding ◌+ℤ◌
same-Counted drv l batch h = record {
  written = 0;
  lost = 0;
  accepted = omega arith;
  ingested = λ _. sym (add_zero (ingested_of l.pipeline.collectors));
  handed = inl (refl, refl);
}

flush_batch-Counted :
    (drv : Driver) (batch : List LogEvent) (l : Local)
    → Documented drv.insert_many
    → l.pipeline.accepted < modulus
    → Counted drv l.pipeline l.writes (flush_batch drv batch l)
unfolding flush_batch bulk_insert
flush_batch-Counted drv [] l doc h = same-Counted drv l l.batch h
flush_batch-Counted drv (e ∷ es) l doc h =
    let n = length (e ∷ es) in
    let r = drv.insert_many (e ∷ es) in
    let cs = when_present (observe drv.elapsed n) l.pipeline.collectors in
    let (kept, present) = settle-ingested_of r n cs in
    let (kept', present') = observed drv.elapsed n l.pipeline.collectors in
    let (count_is, few) = settle-count r n cs (doc (e ∷ es)) in
    record {
      written = n - failures r n;
      lost = failures r n;
      accepted = ap (add64 l.pipeline.accepted) count_is;
      ingested = λ some_collectors.
          adds_ingested _ l.pipeline.collectors _ (kept ∙ kept') (present ∙ present')
            some_collectors
          ∙ ap (λ k. ingested_of l.pipeline.collectors +ℤ k) count_is;
      handed = inr ((e ∷ es), refl, omega (arith, few), refl);
    }

-- In a round of a worker `accepted` and, if there are collectors, `IngestedTotal` grow by the same
-- number: the events handed to the store in the round, less those that the driver, answering as
-- documented, has not written.
pub round-Counted :
    (w : Wake) (drv : Driver) (l : Local)
    → Documented drv.insert_many
    → l.pipeline.accepted < modulus
    → Counted drv l.pipeline l.writes (round w drv l).0
unfolding round flush
round-Counted context_done drv l doc h = flush_batch-Counted drv l.batch l doc h
round-Counted channel_closed drv l doc h = flush_batch-Counted drv l.batch l doc h
round-Counted ticked drv l doc h = flush_batch-Counted drv l.batch l doc h
round-Counted (received ev) drv l doc h = elim (append-cases drv ev l) [
  | inl e ↦ rw e (flush_batch-Counted drv (l.batch ++ ev ∷ []) (appended ev l) doc h)
  | inr (e, _) ↦ rw e (same-Counted drv l _ h)
]
