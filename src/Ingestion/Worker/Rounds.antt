-- ===== src/Ingestion/Worker/Rounds.antt =====
-- What one round of a worker does to its batch, to the batches written and to the pipeline.
use distributed_logs_aggrega.Base.{
  ℕ, zero, suc, ◌+◌, ◌≤◌, ◌<◌, ◌≡◌, refl, Bool, true, false, List, [], ◌∷◌, ◌++◌, length,
  length-append, concat, count, count-append, count-concat, All, All-append, arith, Bool-cases, inl,
  inr, ◌⊎◌,
}
use distributed_logs_aggrega.Base.Int.{ℤ, pos, negsuc, leb_ℤ}
use distributed_logs_aggrega.Models.{LogEvent}
use distributed_logs_aggrega.Ingestion.Worker.{
  Driver, Local, Wake, context_done, received, channel_closed, ticked, flush_batch, flush, append,
  round,
}

-- The largest batch that is written: `BatchSize`, and 1 where that is not positive.
abbrev pub limit : ℤ → ℕ
limit (pos zero) = 1
limit (pos (suc n)) = suc n
limit (negsuc n) = 1

abbrev pub taken : Wake → List LogEvent
taken (received ev) = ev ∷ []
taken _ = []

-- A flush empties the batch, and hands it to the store unless it is empty already.
pub record Flushes (l l' : Local) : Type 0 where
  pub queue : l'.pipeline.queue ≡ l.pipeline.queue
  pub cfg : l'.pipeline.cfg ≡ l.pipeline.cfg
  pub emptied : l'.batch ≡ []
  pub written :
      ((l.batch ≡ []) × (l'.writes ≡ l.writes))
      ⊎ ((0 < length l.batch) × (l'.writes ≡ l.writes ++ l.batch ∷ []))

flush_batch-Flushes :
    (drv : Driver) (batch : List LogEvent) (l : Local)
    → l.batch ≡ batch
    → Flushes l (flush_batch drv batch l)
unfolding flush_batch
flush_batch-Flushes drv [] l e = record {
  queue = refl;
  cfg = refl;
  emptied = e;
  written = inl (e, refl);
}
flush_batch-Flushes drv (x ∷ xs) l e = record {
  queue = refl;
  cfg = refl;
  emptied = refl;
  written = inr (rw e (omega arith), rw e refl);
}

pub flush-Flushes : (drv : Driver) (l : Local) → Flushes l (flush drv l)
unfolding flush
flush-Flushes drv l = flush_batch-Flushes drv l.batch l refl

-- What stands in the batches written and in the worker's own, under a test.
abbrev pub owed : (LogEvent → Bool) → Local → ℕ
owed p l = count p (concat l.writes) + count p l.batch

Flushes-owed : (p : LogEvent → Bool) (l l' : Local) → Flushes l l' → owed p l' ≡ owed p l
unfolding count
Flushes-owed p l l' f = elim f.written [
  | inl (e, w) ↦ rw (w, f.emptied, e) refl
  | inr (_, w) ↦ rw (w, f.emptied) (omega (arith, count-concat p l.writes l.batch))
]

abbrev pub appended : LogEvent → Local → Local
appended ev l = record l { batch = l.batch ++ ev ∷ [] }

pub append-cases :
    (drv : Driver) (ev : LogEvent) (l : Local)
    → (append drv ev l ≡ flush drv (appended ev l))
      ⊎ ((append drv ev l ≡ appended ev l)
          × (leb_ℤ l.pipeline.cfg.batch_size (pos (length (l.batch ++ ev ∷ []))) ≡ false))
unfolding append
append-cases drv ev l =
    elim (Bool-cases (leb_ℤ l.pipeline.cfg.batch_size (pos (length (l.batch ++ ev ∷ []))))) [
      | inl e ↦ inl (rw e)
      | inr e ↦ inr (rw e, e)
    ]

append-owed :
    (p : LogEvent → Bool) (drv : Driver) (ev : LogEvent) (l : Local)
    → owed p (append drv ev l) ≡ owed p l + count p (ev ∷ [])
append-owed p drv ev l = elim (append-cases drv ev l) [
  | inl e ↦ rw e (
      omega (
        arith,
        Flushes-owed p (appended ev l) _ (flush-Flushes drv (appended ev l)),
        count-append p l.batch (ev ∷ []),
      ))
  | inr (e, _) ↦ rw e (omega (arith, count-append p l.batch (ev ∷ [])))
]

-- A round loses nothing: the event received, if any, is in the batch or was written with it.
pub round-owed :
    (p : LogEvent → Bool) (w : Wake) (drv : Driver) (l : Local)
    → owed p (round w drv l).0 ≡ owed p l + count p (taken w)
unfolding round count
round-owed p context_done drv l = omega (arith, Flushes-owed p l _ (flush-Flushes drv l))
round-owed p channel_closed drv l = omega (arith, Flushes-owed p l _ (flush-Flushes drv l))
round-owed p ticked drv l = omega (arith, Flushes-owed p l _ (flush-Flushes drv l))
round-owed p (received ev) drv l = append-owed p drv ev l

-- Between rounds a batch is smaller than the limit, and a worker that has stopped has none.
abbrev pub IsShort : ℕ → List LogEvent → Bool → Type 0
IsShort n batch running = (length batch < n) × (running ≡ false → batch ≡ [])

abbrev pub IsBatch : ℕ → List LogEvent → Type 0
IsBatch n batch = (0 < length batch) × (length batch ≤ n)

pub record Bounded (n : ℕ) (l : Local) (running : Bool) : Type 0 where
  pub short : IsShort n l.batch running
  pub written : All (IsBatch n) l.writes

Flushes-Bounded :
    (n : ℕ) (l l' : Local) (running : Bool)
    → Flushes l l'
    → 0 < n
    → length l.batch ≤ n
    → All (IsBatch n) l.writes
    → Bounded n l' running
Flushes-Bounded n l l' running f pos_n b w = record {
  short = rw f.emptied (pos_n, (λ _. refl));
  written = elim f.written [
    | inl (_, e) ↦ rw e w
    | inr (some_batch, e) ↦ rw e (All-append (IsBatch n) l.writes _ w ((some_batch, b), tt))
  ];
}

pub limit-pos : (size : ℤ) → 0 < limit size
limit-pos (pos zero) = omega arith
limit-pos (pos (suc n)) = omega arith
limit-pos (negsuc n) = omega arith

below_limit : (size : ℤ) (n : ℕ) → leb_ℤ size (pos n) ≡ false → n < limit size
below_limit (pos zero) n h = ground arith
below_limit (pos (suc k)) n h = ground arith
below_limit (negsuc k) n h = ground arith

append-Bounded :
    (drv : Driver) (ev : LogEvent) (l : Local) (size : ℤ)
    → l.pipeline.cfg.batch_size ≡ size
    → Bounded (limit size) l true
    → Bounded (limit size) (append drv ev l) true
append-Bounded drv ev l size c b = elim (append-cases drv ev l) [
  | inl e ↦ rw e (
      Flushes-Bounded (limit size) (appended ev l) _ true (flush-Flushes drv (appended ev l))
        (limit-pos size) (omega (arith, length-append l.batch (ev ∷ []), b.short)) b.written)
  | inr (e, small) ↦
      rw e (record { short = (below_limit size _ (rw c at small), (λ h. cc)); written = b.written })
]

pub round-Bounded :
    (w : Wake) (drv : Driver) (l : Local) (size : ℤ)
    → l.pipeline.cfg.batch_size ≡ size
    → Bounded (limit size) l true
    → Bounded (limit size) (round w drv l).0 (round w drv l).1
unfolding round
round-Bounded context_done drv l size c b =
    Flushes-Bounded (limit size) l _ _ (flush-Flushes drv l) (limit-pos size)
      (omega (arith, b.short)) b.written
round-Bounded channel_closed drv l size c b =
    Flushes-Bounded (limit size) l _ _ (flush-Flushes drv l) (limit-pos size)
      (omega (arith, b.short)) b.written
round-Bounded ticked drv l size c b =
    Flushes-Bounded (limit size) l _ _ (flush-Flushes drv l) (limit-pos size)
      (omega (arith, b.short)) b.written
round-Bounded (received ev) drv l size c b = append-Bounded drv ev l size c b

-- A round changes neither the queue nor the configuration.
pub round-queue :
    (w : Wake) (drv : Driver) (l : Local)
    → ((round w drv l).0.pipeline.queue ≡ l.pipeline.queue)
      × ((round w drv l).0.pipeline.cfg ≡ l.pipeline.cfg)
unfolding round
round-queue context_done drv l = let f = flush-Flushes drv l in (f.queue, f.cfg)
round-queue channel_closed drv l = let f = flush-Flushes drv l in (f.queue, f.cfg)
round-queue ticked drv l = let f = flush-Flushes drv l in (f.queue, f.cfg)
round-queue (received ev) drv l = elim (append-cases drv ev l) [
  | inl e ↦ let f = flush-Flushes drv (appended ev l) in rw e (f.queue, f.cfg)
  | inr (e, _) ↦ rw e (refl, refl)
]
