-- ===== src/Storage/Setup/Opening.antt =====
-- How the opening of the store ends.
use distributed_logs_aggrega.Base.{
  ◌≡◌, refl, String, Bool, true, false, Option, none, some, List, ◌∷◌, length, ltb, arith,
  if◌then◌else◌, Bool-cases, inl, inr,
}
use distributed_logs_aggrega.Base.Action.{Result, ok, err, Action, continue, pure, ◌>>◌}
use distributed_logs_aggrega.Config.{MongoDbConfig}
use distributed_logs_aggrega.Metrics.{Collectors}
use distributed_logs_aggrega.Storage.Setup
use distributed_logs_aggrega.Storage.Setup.Errors.{unforgiven, Sound, continue-Sound, call-Sound}
use distributed_logs_aggrega.Storage.Setup.{
  DriverError, command_error, driver_error, Command, connect, ping, list_collection_names,
  create_collection, create_many, disconnect, CreateOptions, TimeSeriesOptions, Sent, Mongo,
  SetupError, Store, client_options, store_of, time_series_options, plain_options, index_models,
  is_namespace_exists, call, list_names, create_time_series, create_plain, create_missing,
  ensure_collections, ensure_indexes,
}

module _ (m : Mongo) where
  list_names-Sound_at :
      (s : Store) (sent : Sent) (r : Result DriverError (List String))
      → m.names sent s.db s.cfg.collection ≡ r
      → Sound m sent (Setup.listing m r, list_collection_names s.db s.cfg.collection ∷ sent)
  list_names-Sound_at s sent (ok ns) h = (rw h (omega arith), omega arith)
  list_names-Sound_at s sent (err e) h = (
    record {
      command = list_collection_names s.db s.cfg.collection;
      earlier = sent;
      last = refl;
      met = rw h refl;
      named = refl;
      kept = refl;
    },
    rw h (omega arith),
    omega arith,
  )

  abbrev creation : Store → Command
  creation s = create_collection s.db s.cfg.collection (time_series_options s.cfg)

  create_time_series-Sound_at :
      (s : Store) (sent : Sent) (o : Option DriverError)
      → m.answer sent (creation s) ≡ o
      → Sound m sent (Setup.tolerant m o, creation s ∷ sent)
  create_time_series-Sound_at s sent none h = (rw h (omega arith), omega arith)
  create_time_series-Sound_at s sent (some e) h = elim (Bool-cases (is_namespace_exists e)) [
    | inl exists ↦ rw exists (rw (h, exists) (omega arith), omega arith)
    | inr new ↦ rw new (
      record {
        command = creation s;
        earlier = sent;
        last = refl;
        met = h;
        named = refl;
        kept = new;
      },
      rw (h, new) (omega arith),
      omega arith,
    )
  ]

  create_missing-Sound : (s : Store) (sent : Sent) → Sound m sent (create_missing m s sent)
  unfolding create_missing create_time_series create_plain
  create_missing-Sound s sent = elim (Bool-cases s.cfg.time_series) [
    | inl on ↦ rw on (create_time_series-Sound_at s sent _ refl)
    | inr off ↦ rw off (call-Sound m _ _ sent refl refl (λ e. refl) refl)
  ]

  create_unlisted :
      (s : Store) (sent : Sent) (listed : Bool)
      → Sound m sent ((if listed then pure tt else create_missing m s) sent)
  create_unlisted s sent true = (refl, refl)
  create_unlisted s sent false = create_missing-Sound s sent

  unforgiven_index :
      (db name : String) (o : Option DriverError)
      → unforgiven m (create_many db name index_models) o ≡ 0
  unforgiven_index db name none = refl
  unforgiven_index db name (some e) = refl

  ensure_collections-Sound : (s : Store) (sent : Sent) → Sound m sent (ensure_collections m s sent)
  unfolding ensure_collections list_names
  ensure_collections-Sound s sent =
      continue-Sound m _ sent _ _ (list_names-Sound_at s sent _ refl)
        (λ ns. create_unlisted s _ (ltb 0 (length ns)))

  new-Sound :
      (cfg : MongoDbConfig) (cs : Option Collectors) (sent : Sent)
      → Sound m sent (Setup.new m cfg cs sent)
  unfolding Setup.new ensure_indexes
  new-Sound cfg cs sent =
      continue-Sound m _ sent _ _
        (call-Sound m (connect (client_options cfg)) _ sent refl refl (λ e. refl) refl)
        (λ a. continue-Sound m _ _ _ _ (call-Sound m ping _ _ refl refl (λ e. refl) refl) (λ b.
          continue-Sound m _ _ _ _ (ensure_collections-Sound (store_of cfg cs) _)
            (λ c. (omega (arith, unforgiven_index cfg.database cfg.collection _), omega arith))))

  abbrev pub index_creation : MongoDbConfig → Command
  index_creation cfg = create_many cfg.database cfg.collection index_models

  -- A store that is returned is the configured one, and its indexes were requested last.
  abbrev pub IsComplete :
      MongoDbConfig → Option Collectors → Result SetupError Store × Sent → Type 0
  IsComplete cfg cs (ok s, after) =
      (s ≡ store_of cfg cs) × ((earlier : Sent) × (after ≡ index_creation cfg ∷ earlier))
  IsComplete cfg cs (err e, after) = Unit

  continue-IsComplete :
      {A : Type 0} (cfg : MongoDbConfig) (cs : Option Collectors)
      (k : A → Action Sent SetupError Store) (r : Result SetupError A) (mid : Sent)
      → ((a : A) (sent : Sent) → IsComplete cfg cs (k a sent))
      → IsComplete cfg cs (continue k r mid)
  continue-IsComplete cfg cs k (ok a) mid h = h a mid
  continue-IsComplete cfg cs k (err e) mid h = tt

  then-IsComplete :
      (cfg : MongoDbConfig) (cs : Option Collectors) (first : Action Sent SetupError Unit)
      (rest : Action Sent SetupError Store)
      → ((sent : Sent) → IsComplete cfg cs (rest sent))
      → (sent : Sent) → IsComplete cfg cs ((first >> rest) sent)
  then-IsComplete cfg cs first rest h sent =
      continue-IsComplete cfg cs (λ u. rest) (first sent).0 (first sent).1 (λ u. h)

  indexed :
      (cfg : MongoDbConfig) (cs : Option Collectors) (sent : Sent)
      → IsComplete cfg cs ((ensure_indexes m (store_of cfg cs) >> pure (store_of cfg cs)) sent)
  unfolding ensure_indexes
  indexed cfg cs sent = (refl, (sent, refl))

  new-IsComplete :
      (cfg : MongoDbConfig) (cs : Option Collectors) (sent : Sent)
      → IsComplete cfg cs (Setup.new m cfg cs sent)
  unfolding Setup.new
  new-IsComplete cfg cs = then-IsComplete cfg cs (call m (connect (client_options cfg)) _) _ (
      then-IsComplete cfg cs (call m ping _) _
        (then-IsComplete cfg cs (ensure_collections m (store_of cfg cs)) _ (indexed cfg cs)))

  -- `New` returns the store just if no command met an error that it does not forgive, which are any
  -- on the indexes and NamespaceExists for a time-series collection; the store is the configured one,
  -- and its indexes were requested last. Otherwise the last command sent met the error that is returned,
  -- behind a text that names the step, or as it is where that was the creation of a plain collection.
  -- The client is never disconnected.
  pub new-Opens :
      (cfg : MongoDbConfig) (cs : Option Collectors) (sent : Sent)
      → Sound m sent (Setup.new m cfg cs sent) × IsComplete cfg cs (Setup.new m cfg cs sent)
  new-Opens cfg cs sent = (new-Sound cfg cs sent, new-IsComplete cfg cs sent)
