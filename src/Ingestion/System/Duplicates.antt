-- ===== src/Ingestion/System/Duplicates.antt =====
-- An event that is sent again, on any interleaving.
use distributed_logs_aggrega.Base.{
  ℕ, ◌+◌, ◌≤◌, ◌≡◌, ◌≢◌, refl, sym, subst, ◌∙◌, ◌⊎◌, inl, inr, Bool, true, false, String, some,
  List, [], ◌∷◌, ◌++◌, ◌==◌, eq_iff, drop-length, drop-length-append, count, count-append, arith,
  Bool-cases, if◌then◌else◌,
}
use distributed_logs_aggrega.Base.GoMap.{lookup, UniqueKeys}
use distributed_logs_aggrega.Models.{LogEvent}
use distributed_logs_aggrega.Ingestion.{Pipeline}
use distributed_logs_aggrega.Ingestion.Dedup.{Dedup}
use distributed_logs_aggrega.Ingestion.Dedup.Once.{remembered, refused, check-UniqueKeys, passed}
use distributed_logs_aggrega.Ingestion.Submit.{Reading, submit}
use distributed_logs_aggrega.Ingestion.Submit.Cases.{stamped, checked, key-stamped}
use distributed_logs_aggrega.Ingestion.Submit.Growth.{submit-Grows}
use distributed_logs_aggrega.Ingestion.Submit.Memory.{untouched, seen, passes, submit-Remembers}
use distributed_logs_aggrega.Ingestion.Worker.{
  Driver, Local, Wake, context_done, received, channel_closed, ticked, flush_batch, flush, append,
  round,
}
use distributed_logs_aggrega.Ingestion.System.{
  System, resume, Step, submits, stops, receives, drained, ticks, scrapes, observes, scraper_leaves,
  cancels, stop, Reach, here, next,
}
use distributed_logs_aggrega.Ingestion.System.Conservation.{enters, entered, all_entered}

flush_batch-dedup :
    (drv : Driver) (batch : List LogEvent) (l : Local)
    → (flush_batch drv batch l).pipeline.dedup ≡ l.pipeline.dedup
unfolding flush_batch
flush_batch-dedup drv [] l = refl
flush_batch-dedup drv (x ∷ xs) l = refl

-- A round of a worker does not touch the memory for keys.
round-dedup :
    (w : Wake) (drv : Driver) (l : Local) → (round w drv l).0.pipeline.dedup ≡ l.pipeline.dedup
unfolding round flush append
round-dedup context_done drv l = flush_batch-dedup drv l.batch l
round-dedup channel_closed drv l = flush_batch-dedup drv l.batch l
round-dedup ticked drv l = flush_batch-dedup drv l.batch l
round-dedup (received ev) drv l =
    ground
      (arith, flush_batch-dedup drv (l.batch ++ ev ∷ []) (record l { batch = l.batch ++ ev ∷ [] }))

abbrev pub has_key : String → LogEvent → Bool
has_key key e = e.idempotency_key == key

module _ (key : String) (start : ℕ) where
  -- The clock of each submission reads at most 300 seconds from `start` on.
  abbrev TimelyStep : {s t : System} → Step s t → Type 0
  TimelyStep (submits r ev e) = (start ≤ r.unix) × (r.unix ≤ start + 300)
  TimelyStep _ = Unit

  unfoldable pub Timely : {s t : System} → Reach s t → Type 0
  Timely here = Unit
  Timely (next path st) = Timely path × TimelyStep st

  -- With `n` events of the key queued so far: none, or one, of which the key is kept.
  record Kept (n : ℕ) (d : Dedup) : Type 0 where
    unique : UniqueKeys d.dedupe
    stored : (n ≡ 0) ⊎ ((n ≡ 1) × ((t : ℕ) × (lookup key d.dedupe ≡ some t) × (start ≤ t)))

  checked-Kept :
      (n : ℕ) (r : Reading) (ev : LogEvent) (p : Pipeline)
      → Kept n p.dedup
      → r.unix ≤ start + 300
      → Kept n (checked r ev p).0
  checked-Kept n r ev p k late = record {
    unique = check-UniqueKeys ev.idempotency_key r.unix p.dedup k.unique;
    stored = elim k.stored [
      | inl e ↦ inl e
      | inr (e, (t, there, since)) ↦ inr (
        e,
        (t, remembered key ev.idempotency_key r.unix t p.dedup k.unique there (omega arith), since),
      )
    ];
  }

  count-unchanged :
      (r : Reading) (ev : LogEvent) (p : Pipeline)
      → (submit r ev p).0.queue ≡ p.queue
      → count (has_key key) (enters r ev p) ≡ 0
  unfolding count
  count-unchanged r ev p e = rw (e, drop-length) refl

  subst-Kept : (m n : ℕ) (d e : Dedup) → m ≡ n → d ≡ e → Kept n e → Kept m d
  subst-Kept m n d e a b k = rw (a, b) k

  count-queued :
      (r : Reading) (ev : LogEvent) (p : Pipeline)
      → (submit r ev p).0.queue.items ≡ p.queue.items ++ stamped r ev ∷ []
      → (b : Bool) → (ev.idempotency_key == key) ≡ b
      → count (has_key key) (enters r ev p) ≡ (if b then 1 else 0)
  unfolding count
  count-queued r ev p e b h = rw (e, drop-length-append, key-stamped, h) (ground arith)

  -- A check that passes for the key is the first: one that was kept would have been refused.
  passes-Kept :
      (n : ℕ) (r : Reading) (ev : LogEvent) (p : Pipeline)
      → key ≢ ""
      → Kept n p.dedup
      → (start ≤ r.unix) × (r.unix ≤ start + 300)
      → (checked r ev p).1 ≡ true
      → ev.idempotency_key ≡ key
      → Kept (n + 1) (checked r ev p).0
  passes-Kept n r ev p keyed k (early, late) new same = record {
    unique = check-UniqueKeys ev.idempotency_key r.unix p.dedup k.unique;
    stored = elim k.stored [
      | inl none_yet ↦ inr (omega (arith, none_yet), (r.unix, stored_now, early))
      | inr (e, (t, there, since)) ↦ cc (new, refused_again t there since)
    ];
  }
    where
      keyed_event : ev.idempotency_key ≢ ""
      keyed_event h = keyed (sym same ∙ h)

      stored_now : lookup key (checked r ev p).0.dedupe ≡ some r.unix
      stored_now =
          subst (λ (x : String). lookup x (checked r ev p).0.dedupe ≡ some r.unix) same
            (passed ev.idempotency_key r.unix p.dedup keyed_event new)

      refused_again :
          (t : ℕ) → lookup key p.dedup.dedupe ≡ some t → start ≤ t → (checked r ev p).1 ≡ false
      refused_again t there since =
          refused ev.idempotency_key r.unix t p.dedup keyed_event k.unique
            (subst (λ (x : String). lookup x p.dedup.dedupe ≡ some t) (sym same) there)
            (omega arith)

  submit-Kept :
      (n : ℕ) (r : Reading) (ev : LogEvent) (p : Pipeline)
      → key ≢ ""
      → Kept n p.dedup
      → (start ≤ r.unix) × (r.unix ≤ start + 300)
      → Kept (n + count (has_key key) (enters r ev p)) (submit r ev p).0.dedup
  submit-Kept n r ev p keyed k times = elim (submit-Remembers r ev p) [
    | untouched d q ↦ subst-Kept _ n _ p.dedup (omega (arith, count-unchanged r ev p q)) d k
    | seen old d q ↦
        subst-Kept _ n _ _ (omega (arith, count-unchanged r ev p q)) d
          (checked-Kept n r ev p k times.1)
    | passes new d ↦ elim (submit-Grows r ev p).queue [
      | inl q ↦
          subst-Kept _ n _ _ (omega (arith, count-unchanged r ev p q)) d
            (checked-Kept n r ev p k times.1)
      | inr (_, _, more) ↦ elim (Bool-cases (ev.idempotency_key == key)) [
        | inl same ↦
            subst-Kept _ (n + 1) _ _ (omega (arith, count-queued r ev p (rw more refl) true same)) d
              (passes-Kept n r ev p keyed k times new ((eq_iff ev.idempotency_key key).0 same))
        | inr other ↦
            subst-Kept _ n _ _ (omega (arith, count-queued r ev p (rw more refl) false other)) d
              (checked-Kept n r ev p k times.1)
      ]
    ]
  ]

  Step-Kept :
      {s t : System} (n : ℕ) (st : Step s t)
      → key ≢ ""
      → TimelyStep st
      → Kept n s.pipeline.dedup
      → Kept (n + count (has_key key) (entered st)) t.pipeline.dedup
  unfolding count resume
  Step-Kept {s} n (submits r ev e) keyed times k =
      rw e (submit-Kept n r ev s.pipeline keyed k times)
  Step-Kept {s} n (stops i w drv runs c e) keyed times k =
      subst-Kept _ n _ s.pipeline.dedup (omega arith) (rw e (round-dedup context_done drv _)) k
  Step-Kept {s} n (receives i w drv ev ch runs got e) keyed times k =
      subst-Kept _ n _ s.pipeline.dedup (omega arith) (rw e (round-dedup (received ev) drv _)) k
  Step-Kept {s} n (drained i w drv runs c e) keyed times k =
      subst-Kept _ n _ s.pipeline.dedup (omega arith) (rw e (round-dedup channel_closed drv _)) k
  Step-Kept {s} n (ticks i w drv runs e) keyed times k =
      subst-Kept _ n _ s.pipeline.dedup (omega arith) (rw e (round-dedup ticked drv _)) k
  Step-Kept {s} n (scrapes b e) keyed times k = rw e (subst-Kept _ n _ _ (omega arith) refl k)
  Step-Kept {s} n (observes f e) keyed times k = rw e (subst-Kept _ n _ _ (omega arith) refl k)
  Step-Kept {s} n (scraper_leaves b c e) keyed times k =
      rw e (subst-Kept _ n _ _ (omega arith) refl k)
  Step-Kept {s} n (cancels e) keyed times k = rw e (subst-Kept _ n _ _ (omega arith) refl k)
  Step-Kept {s} n (stop ch c e) keyed times k = rw e (subst-Kept _ n _ _ (omega arith) refl k)

  Reach-Kept :
      {s t : System} (path : Reach s t)
      → key ≢ ""
      → UniqueKeys s.pipeline.dedup.dedupe
      → Timely path
      → Kept (count (has_key key) (all_entered path)) t.pipeline.dedup
  unfolding count all_entered Timely
  Reach-Kept here keyed unique times = record { unique = unique; stored = inl refl }
  Reach-Kept (next path st) keyed unique times =
      subst-Kept _ _ _ _ (count-append (has_key key) (all_entered path) (entered st)) refl
        (Step-Kept _ st keyed times.1 (Reach-Kept path keyed unique times.0))

  -- If no key is twice in the memory to begin with, then on any interleaving in which the clocks of
  -- all submissions read within 300 seconds, at most one event of a key that is not empty is queued,
  -- however often it is submitted.
  pub queued_once :
      {s t : System} (path : Reach s t)
      → key ≢ ""
      → UniqueKeys s.pipeline.dedup.dedupe
      → Timely path
      → count (has_key key) (all_entered path) ≤ 1
  queued_once path keyed unique times = elim (Reach-Kept path keyed unique times).stored [
    | inl e ↦ omega (arith, e)
    | inr (e, _) ↦ omega (arith, e)
  ]
