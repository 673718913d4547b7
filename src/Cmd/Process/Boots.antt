-- ===== src/Cmd/Process/Boots.antt =====
-- How a command starts.
use distributed_logs_aggrega.Base.{ℕ, ◌≡◌, refl, ap, some, []}
use distributed_logs_aggrega.Base.Action.{Result, ok, err, continue, pure}
use distributed_logs_aggrega.Config.{Config}
use distributed_logs_aggrega.Config.Load.{LoadResult, loaded, parse_error, read_error}
use distributed_logs_aggrega.Logger
use distributed_logs_aggrega.Logger.{Logger}
use distributed_logs_aggrega.Metrics
use distributed_logs_aggrega.Storage.Setup
use distributed_logs_aggrega.Storage.Setup.{Sent, Mongo, SetupError, Store}
use distributed_logs_aggrega.Storage.Setup.Errors.{disconnects, disconnects-Sound}
use distributed_logs_aggrega.Storage.Setup.Opening.{new-Opens}
use distributed_logs_aggrega.Cmd.Process.{Process, started, or_exit, open_store, Booted, boot}

abbrev config_or : Config → LoadResult → Config
config_or d (loaded cfg) = cfg
config_or d _ = d

config_or-loaded : (cfg cfg' : Config) → loaded cfg ≡ loaded cfg' → cfg ≡ cfg'
config_or-loaded cfg cfg' h = ap (config_or cfg) h

module _ (m : Mongo) where
  -- What the driver has been asked and how it went, for a configuration.
  abbrev pub opening : Config → Result SetupError Store × Sent
  opening cfg = Setup.new m cfg.mongo_db (some Metrics.new) []

  -- The store does not open, if the configuration is loaded at all.
  abbrev pub NotOpened : LoadResult → Type 0
  NotOpened r = (cfg : Config) → r ≡ loaded cfg → (e : SetupError) × ((opening cfg).0 ≡ err e)

  abbrev pub Boots : LoadResult → Result ℕ Booted × Process → Type 0
  Boots r (ok b, p) =
      (r ≡ loaded b.cfg)
      × (opening b.cfg ≡ (ok b.store, p.sent))
      × (p.effects ≡ [])
      × (disconnects m p.sent ≡ 0)
  Boots r (err n, p) = (n ≡ 1) × NotOpened r × (p.effects ≡ []) × (disconnects m p.sent ≡ 0)

  abbrev booted : Config → Logger → Result SetupError Store × Sent → Result ℕ Booted × Process
  booted cfg log (r, sent) =
      continue (λ store. pure (record { cfg = cfg; logger = log; store = store })) (or_exit r)
        (record started { sent = sent })

  not_opened :
      (cfg : Config) (e : SetupError) (sent : Sent)
      → opening cfg ≡ (err e, sent)
      → NotOpened (loaded cfg)
  not_opened cfg e sent h cfg' same = (e, rw (← config_or-loaded cfg cfg' same) (rw h refl))

  booted-Boots :
      (cfg : Config) (log : Logger) (x : Result SetupError Store × Sent)
      → opening cfg ≡ x
      → disconnects m x.1 ≡ 0
      → Boots (loaded cfg) (booted cfg log x)
  booted-Boots cfg log (ok s, sent) h d = (refl, h, refl, d)
  booted-Boots cfg log (err e, sent) h d = (refl, not_opened cfg e sent h, refl, d)

  pub boot-Boots : (r : LoadResult) → Boots r (boot m r started)
  unfolding boot open_store Logger.new
  boot-Boots (parse_error e) = (refl, (λ cfg h. cc), refl, refl)
  boot-Boots (read_error e) = (refl, (λ cfg h. cc), refl, refl)
  boot-Boots (loaded cfg) =
      booted-Boots cfg _ (opening cfg) refl
        (disconnects-Sound m [] (opening cfg) (new-Opens m cfg.mongo_db (some Metrics.new) []).0)
