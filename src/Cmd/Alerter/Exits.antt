-- ===== src/Cmd/Alerter/Exits.antt =====
-- How the alerter ends.
use distributed_logs_aggrega.Base.{ℕ, ◌≡◌, refl, none, some, List, [], ◌∷◌, ◌++◌}
use distributed_logs_aggrega.Base.Action.{Result, ok, err, continue}
use distributed_logs_aggrega.Config.{Config}
use distributed_logs_aggrega.Config.Load.{LoadResult, loaded}
use distributed_logs_aggrega.Storage.Setup.{Sent, Mongo, disconnect, call, close}
use distributed_logs_aggrega.Storage.Setup.Errors.{disconnects}
use distributed_logs_aggrega.Cmd.Process.{
  Effect, listens, shuts_down, cancels, closes_store, syncs_log, logs_error, Process, started,
  metrics_address, Booted, boot, run_deferred, close_store,
}
use distributed_logs_aggrega.Cmd.Process.Boots.{opening, NotOpened, Boots, boot-Boots}
use distributed_logs_aggrega.Cmd.Alerter.{Woken, signal, run_returned, leave, watch, main}

abbrev pub reported : Woken → List Effect
reported (run_returned (some e)) = logs_error e ∷ []
reported _ = []

-- The calls of a run that reaches its end, the latest first, behind those before the `select`.
abbrev pub leaving : Config → Woken → List Effect → List Effect
leaving cfg w earlier =
    syncs_log
    ∷ cancels
    ∷ closes_store
    ∷ shuts_down (metrics_address cfg)
    ∷ cancels
    ∷ (reported w ++ earlier)

abbrev pub calls : Config → Woken → List Effect
calls cfg w = leaving cfg w (listens (metrics_address cfg) ∷ [])

module _ (m : Mongo) (select : Booted → Sent → Woken) where
  pub record Ended (r : LoadResult) (p : Process) : Type 0 where
    pub booted : Booted
    pub sent : Sent
    pub loads : r ≡ loaded booted.cfg
    pub opens : opening m booted.cfg ≡ (ok booted.store, sent)
    pub effects : p.effects ≡ calls booted.cfg (select booted sent)
    pub closed : p.sent ≡ disconnect ∷ sent
    pub once : disconnects m p.sent ≡ 1

  abbrev pub Ends : LoadResult → Result ℕ Unit × Process → Type 0
  Ends r (ok u, p) = Ended r p
  Ends r (err n, p) = (n ≡ 1) × NotOpened m r × (p.effects ≡ []) × (disconnects m p.sent ≡ 0)

  abbrev listening : Booted → Process → Process
  listening b p = record p { effects = listens (metrics_address b.cfg) ∷ p.effects }

  pub leave_lem :
      (cfg : Config) (w : Woken) (p : Process)
      → leave m cfg w p
        ≡ (ok tt, record { sent = disconnect ∷ p.sent; effects = leaving cfg w p.effects })
  unfolding leave run_deferred close_store close call
  leave_lem cfg signal p = refl
  leave_lem cfg (run_returned none) p = refl
  leave_lem cfg (run_returned (some e)) p = refl

  continue-Ends :
      (r : LoadResult) (x : Result ℕ Booted) (p : Process)
      → Boots m r (x, p)
      → Ends r (continue (watch m select) x p)
  unfolding watch
  continue-Ends r (ok b) p (loads, opens, quiet, none_yet) =
      rw (leave_lem b.cfg (select b p.sent) (listening b p)) (record {
        booted = b;
        sent = p.sent;
        loads = loads;
        opens = opens;
        effects = rw quiet refl;
        closed = refl;
        once = rw none_yet refl;
      })
  continue-Ends r (err n) p h = h

  -- The alerter exits with 1, having made no call but the store's, if the configuration is not loaded
  -- or the store does not open. Otherwise it exits with 0, also if `Run` has returned an error, which
  -- is only logged: it cancels the context, shuts its server down, closes the store, and syncs the
  -- log; the client is disconnected once.
  pub main-Ends : (r : LoadResult) → Ends r (main m r select started)
  unfolding main
  main-Ends r = continue-Ends r (boot m r started).0 (boot m r started).1 (boot-Boots m r)
