-- ===== src/Cmd/Ingestor/Api/Acknowledged.antt =====
-- What becomes of the events that the API of cmd/ingestor/main.go has reported as accepted: requests
-- in any order, with the steps of the pipeline between them.
use distributed_logs_aggrega.Base.{
  ℕ, ◌+◌, ◌≡◌, refl, ap, ◌∙◌, true, false, List, [], ◌∷◌, ◌++◌, length, length-append, concat,
  count, All, arith,
}
use distributed_logs_aggrega.Config.{IngestorConfig}
use distributed_logs_aggrega.Http.{Request}
use distributed_logs_aggrega.Models.{LogEvent}
use distributed_logs_aggrega.Storage.Aggregate.{Doubles}
use distributed_logs_aggrega.Ingestion.{Pipeline}
use distributed_logs_aggrega.Ingestion.Submit.Keyless.{queued}
use distributed_logs_aggrega.Ingestion.System.{Worker, System, Step, submits, Reach, here, next}
use distributed_logs_aggrega.Ingestion.System.Started.{IsNew, IsStarted}
use distributed_logs_aggrega.Ingestion.System.Bounds.{started-Inv}
use distributed_logs_aggrega.Ingestion.System.Conservation.{
  held, batches, entered, tally, tally-Step, count-held, started-held,
}
use distributed_logs_aggrega.Ingestion.System.Drain.{IsStopped, stopped-batches, drain_complete}
use distributed_logs_aggrega.Ingestion.System.Shutdown.{Reach_trans}
use distributed_logs_aggrega.Processor.Steps.{at_pipeline}
use distributed_logs_aggrega.Cmd.Ingestor.Routes.{Mux}
use distributed_logs_aggrega.Cmd.Ingestor.Api.{Backend, answer}
use distributed_logs_aggrega.Cmd.Ingestor.Api.Growth.{acknowledged, Keyless, answer-Takes}
use distributed_logs_aggrega.Cmd.Ingestor.Api.Runs.{answer-Stepped}

-- A step of the pipeline that is no submission.
abbrev IsInner : {s t : System} → Step s t → Type 0
IsInner (submits r ev e) = ⊥
IsInner _ = Unit

inner-entered : {s t : System} (st : Step s t) → IsInner st → entered st ≡ []
inner-entered (submits r ev e) h = absurd h
inner-entered _ h = refl

count_all : {A : Type 0} (xs : List A) → count (λ _. true) xs ≡ length xs
unfolding count
count_all [] = refl
count_all (x ∷ xs) = omega (arith, count_all xs)

abbrev total : System → ℕ
total s = tally (λ _. true) s

length-held : (s : System) → total s ≡ length (held s)
length-held s = omega (arith, count-held (λ _. true) s, count_all (held s))

inner-total : {s t : System} (st : Step s t) → IsInner st → total t ≡ total s
unfolding count
inner-total st h = omega (
  arith,
  tally-Step (λ _. true) st,
  ap (λ (xs : List LogEvent). count (λ _. true) xs) (inner-entered st h),
)

queued-total :
    (s : System) (q : Pipeline) (n : ℕ)
    → queued q ≡ queued s.pipeline + n
    → total (at_pipeline s q) ≡ total s + n
queued-total s q n h = omega (arith, h, count_all q.queue.items, count_all s.pipeline.queue.items)

module _ (ds : Doubles) (mux : Mux) where
  -- Requests served one after the other, and steps of the pipeline between them; the
  -- number is that of the events that have been reported as accepted. What the requests take from
  -- outside may be another for each of them.
  pub data History (s : System) : System → ℕ → Type 0 where
    begun : History s s 0
    requested :
        {t u : System} {n m : ℕ}
        → History s t n
        → (b : Backend ds) (elapsed : ℕ) (r : Request)
        → u ≡ at_pipeline t (answer ds b mux elapsed r t.pipeline).1
        → m ≡ n + acknowledged ds mux r (answer ds b mux elapsed r t.pipeline).0
        → History s u m
    worked : {t u : System} {n : ℕ} → History s t n → (st : Step t u) → IsInner st → History s u n

  -- No event in a request has a key.
  unfoldable pub IsKeyless : {s t : System} {n : ℕ} → History s t n → Type 0
  IsKeyless begun = Unit
  IsKeyless (requested past b elapsed r e m) = IsKeyless past × Keyless ds b r
  IsKeyless (worked past st inner) = IsKeyless past

  History-Reach : {s t : System} {n : ℕ} → History s t n → Reach s t
  History-Reach begun = here
  History-Reach (requested {t} past b elapsed r e m) =
      rw e (Reach_trans (History-Reach past) (answer-Stepped ds b mux elapsed r t))
  History-Reach (worked past st inner) = next (History-Reach past) st

  History-total :
      {s t : System} {n : ℕ} (past : History s t n) → IsKeyless past → total t ≡ total s + n
  unfolding IsKeyless
  History-total begun keyless = omega arith
  History-total (requested {t} past b elapsed r e m) keyless =
      let out = answer ds b mux elapsed r t.pipeline in
      ap total e
      ∙ queued-total t out.1 (acknowledged ds mux r out.0)
          (answer-Takes ds b mux elapsed r t.pipeline keyless.1).grown
      ∙ omega (arith, History-total past keyless.0, m)
  History-total (worked past st inner) keyless =
      omega (arith, History-total past keyless, inner-total st inner)

  -- From the start of a new pipeline on, the events that the API has reported as accepted are as many
  -- as are handed to the store, in a worker's batch or queued, whatever it was asked and in whatever
  -- order, as long as no event in a request has a key.
  acknowledged-held :
      {cfg : IngestorConfig} {p : Pipeline} {s t : System} {n : ℕ}
      → IsNew cfg p
      → IsStarted p s
      → (past : History s t n) → IsKeyless past
      → n ≡ length (held t)
  acknowledged-held {s} {t} new started past keyless = omega (
    arith,
    History-total past keyless,
    length-held s,
    length-held t,
    ap (λ (xs : List LogEvent). length xs) (started-held new started),
  )

  -- From the start of a new pipeline on, once all workers, of which there is one, have stopped without
  -- the context being cancelled: the events that the API has reported as accepted are as many as were
  -- handed to the store, as long as no event in a request has a key.
  pub acknowledged_written :
      {cfg : IngestorConfig} {p : Pipeline} {s t : System} {n : ℕ} {k : Worker} {ks : List Worker}
      → IsNew cfg p
      → IsStarted p s
      → (past : History s t n) → IsKeyless past
      → t.canceled ≡ false
      → t.workers ≡ k ∷ ks
      → All IsStopped t.workers
      → n ≡ length (concat t.writes)
  acknowledged_written {t} new started past keyless live some_worker stopped =
      let path = History-Reach past in
      omega (
        arith,
        acknowledged-held new started past keyless,
        length-append (concat t.writes) (batches t.workers ++ t.pipeline.queue.items),
        ap (λ (xs : List LogEvent). length (xs ++ t.pipeline.queue.items))
            (stopped-batches _ t.workers (started-Inv new started path).workers stopped),
        ap (λ (xs : List LogEvent). length xs)
            (drain_complete new started path live some_worker stopped).0,
      )
