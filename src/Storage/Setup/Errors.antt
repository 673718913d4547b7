-- ===== src/Storage/Setup/Errors.antt =====
-- Which errors end a series of commands to the driver, and which are forgiven.
use distributed_logs_aggrega.Base.{
  ℕ, ◌+◌, ◌≡◌, refl, sym, String, Bool, true, false, ◌&&◌, Option, none, some, [], ◌∷◌, arith,
  if◌then◌else◌,
}
use distributed_logs_aggrega.Base.Action.{Result, ok, err, Action, continue}
use distributed_logs_aggrega.Storage.Setup
use distributed_logs_aggrega.Storage.Setup.{
  DriverError, command_error, driver_error, Command, connect, ping, list_collection_names,
  create_collection, create_many, disconnect, CreateOptions, TimeSeriesOptions, Sent, Mongo,
  SetupError, Store, client_options, store_of, time_series_options, plain_options, index_models,
  is_namespace_exists, call, list_names, create_time_series, create_plain, create_missing,
  ensure_collections, ensure_indexes,
}

abbrev pub has_time_series : Option TimeSeriesOptions → Bool
has_time_series none = false
has_time_series (some o) = true

-- The errors with which the opening goes on: any of the indexes, and a time-series collection that
-- exists by now.
abbrev pub forgives : Command → DriverError → Bool
forgives (create_many db name models) e = true
forgives (create_collection db name opts) e =
    has_time_series opts.time_series && is_namespace_exists e
forgives _ e = false

-- The text with which an error message names the step; an error of `CreateCollection` for a plain
-- collection is returned as it is.
abbrev pub prefix_of : Command → String
prefix_of (connect opts) = "mongo connect: "
prefix_of ping = "mongo ping: "
prefix_of (list_collection_names db name) = "list collections: "
prefix_of (create_collection db name opts) =
    if has_time_series opts.time_series then "create time-series collection: " else ""
prefix_of _ = ""

abbrev error_of : {A : Type 0} → Result DriverError A → Option DriverError
error_of (ok a) = none
error_of (err e) = some e

abbrev pub is_disconnect : Command → Bool
is_disconnect disconnect = true
is_disconnect _ = false

module _ (m : Mongo) where
  -- The error with which the driver answers to a command, after those sent before.
  abbrev pub refusal : Sent → Command → Option DriverError
  refusal sent (list_collection_names db name) = error_of (m.names sent db name)
  refusal sent c = m.answer sent c

  abbrev pub unforgiven : Command → Option DriverError → ℕ
  unforgiven c none = 0
  unforgiven c (some e) = if forgives c e then 0 else 1

  -- How many of the commands sent met an error that is not forgiven.
  abbrev pub failures : Sent → ℕ
  failures [] = 0
  failures (c ∷ sent) = unforgiven c (refusal sent c) + failures sent

  abbrev pub disconnects : Sent → ℕ
  disconnects [] = 0
  disconnects (c ∷ sent) = (if is_disconnect c then 1 else 0) + disconnects sent

  -- The last command sent met the error, which is returned behind the text of its step.
  pub record Blames (e : SetupError) (sent : Sent) : Type 0 where
    pub command : Command
    pub earlier : Sent
    pub last : sent ≡ command ∷ earlier
    pub met : refusal earlier command ≡ some e.cause
    pub named : e.prefix ≡ prefix_of command
    pub kept : forgives command e.cause ≡ false

  -- How calls that began after `before` have ended.
  abbrev pub Sound : {A : Type 0} → Sent → Result SetupError A × Sent → Type 0
  Sound before (ok a, after) =
      (failures after ≡ failures before) × (disconnects after ≡ disconnects before)
  Sound before (err e, after) =
      Blames e after
      × (failures after ≡ failures before + 1)
      × (disconnects after ≡ disconnects before)

  pub shift-Sound :
      {A : Type 0} (before mid : Sent) (t : Result SetupError A × Sent)
      → failures mid ≡ failures before
      → disconnects mid ≡ disconnects before
      → Sound mid t
      → Sound before t
  shift-Sound before mid (ok b, after) f d (f', d') = (omega (arith, f, f'), omega (arith, d, d'))
  shift-Sound before mid (err e, after) f d (b, f', d') =
      (b, omega (arith, f, f'), omega (arith, d, d'))

  pub continue-Sound :
      {A B : Type 0} (k : A → Action Sent SetupError B) (before : Sent) (r : Result SetupError A)
      (mid : Sent)
      → Sound before (r, mid)
      → ((a : A) → Sound mid (k a mid))
      → Sound before (continue k r mid)
  continue-Sound k before (ok a) mid (f, d) h = shift-Sound before mid (k a mid) f d (h a)
  continue-Sound k before (err e) mid h _ = h

  -- A command other than a listing, whose errors are not forgiven.
  call-Sound_at :
      (c : Command) (prefix : String) (sent : Sent) (o : Option DriverError)
      → refusal sent c ≡ o
      → prefix_of c ≡ prefix
      → ((e : DriverError) → forgives c e ≡ false)
      → is_disconnect c ≡ false
      → Sound sent (Setup.outcome m (Setup.wrapped prefix) o, c ∷ sent)
  call-Sound_at c prefix sent none h p f d = (rw h (omega arith), rw d (omega arith))
  call-Sound_at c prefix sent (some e) h p f d = (
    record { command = c; earlier = sent; last = refl; met = h; named = sym p; kept = f e },
    rw (h, f e) (omega arith),
    rw d (omega arith),
  )

  pub call-Sound :
      (c : Command) (prefix : String) (sent : Sent)
      → refusal sent c ≡ m.answer sent c
      → prefix_of c ≡ prefix
      → ((e : DriverError) → forgives c e ≡ false)
      → is_disconnect c ≡ false
      → Sound sent (call m c (Setup.wrapped prefix) sent)
  unfolding call
  call-Sound c prefix sent h p f d = call-Sound_at c prefix sent (m.answer sent c) h p f d

  pub disconnects-Sound :
      {A : Type 0} (before : Sent) (t : Result SetupError A × Sent)
      → Sound before t
      → disconnects t.1 ≡ disconnects before
  disconnects-Sound before (ok a, after) h = h.1
  disconnects-Sound before (err e, after) h = h.2
