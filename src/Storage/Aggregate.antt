-- ===== src/Storage/Aggregate.antt =====
-- `AggregateStats` of internal/storage/mongo.go. `aggregate` stands for the driver's `Aggregate` and
-- `All`, `of_int64` and `divide` for the arithmetic of float64.
use distributed_logs_aggrega.Base.{
  ℕ, String, Bool, ◌||◌, Option, none, some, List, [], ◌∷◌, ◌==◌, if◌then◌else◌,
}
use distributed_logs_aggrega.Base.Int.{ℤ, pos, negsuc, ltb_ℤ}
use distributed_logs_aggrega.Base.Word.{add64, signed64}
use distributed_logs_aggrega.Base.GoMap.{GoMap, insert}
use distributed_logs_aggrega.Models.{Time, level_error, level_fatal}
use distributed_logs_aggrega.Storage.Documents.{
  Bson, int32, text, date, array, document, Items, nil, cons, Fields, end, field, get, as_array,
  as_document, text_or_empty, to_int64,
}

-- float64 with what the code uses of it.
pub record Doubles : Type 1 where
  pub Double : Type 0
  pub truncate : Double → ℤ
  pub of_int64 : ℤ → Double
  pub divide : Double → Double → Double

abbrev pub is_error_level : String → Bool
is_error_level lvl = lvl == level_error || lvl == level_fatal

module _ (ds : Doubles) where
  open ds use {Double, truncate, of_int64, divide}

  pub record Stats : Type 0 where
    pub total_events : ℤ
    pub by_level : GoMap ℤ
    pub by_service : GoMap ℤ
    pub error_rate : Double
    pub window_start : Time
    pub window_end : Time

  -- The documents of the cursor, or the error of `Aggregate` or of `All`.
  pub data Aggregated : Type 0 where
    aggregated : List (Fields Double) → Aggregated
    aggregate_failed : String → Aggregated

  -- What `AggregateStats` returns.
  pub data StatsResult : Type 0 where
    snapshot : Stats → StatsResult
    stats_failed : String → StatsResult

  -- `bson.M{key: value}`
  abbrev one : String → Bson Double → Bson Double
  one k v = document (field k v end)

  -- `bson.M{"$group": bson.M{"_id": key, "n": bson.M{"$sum": 1}}}`
  abbrev group_by : String → Bson Double
  group_by key =
      one "$group" (document (field "_id" (text key) (field "n" (one "$sum" (int32 (pos 1))) end)))

  unfoldable pub stats_pipeline : Time → Items Double
  stats_pipeline since = cons (one "$match" (one "timestamp" (one "$gte" (date since)))) (
      cons
        (one "$facet" (
          document (
            field "total" (array (cons (one "$count" (text "n")) nil)) (
              field "by_level" (array (cons (group_by "$level") nil)) (
                field "by_service"
                  (array (
                    cons (group_by "$service_name") (
                      cons (one "$sort" (one "n" (int32 (negsuc 0))))
                        (cons (one "$limit" (int32 (pos 20))) nil))))
                  end)))))
        nil)

  abbrev pub empty_stats : Time → Time → Stats
  empty_stats since now = record {
    total_events = pos 0;
    by_level = [];
    by_service = [];
    error_rate = of_int64 (pos 0);
    window_start = since;
    window_end = now;
  }

  -- The first document of the "total" facet.
  abbrev pub total_of : Option (Items Double) → ℤ
  total_of none = pos 0
  total_of (some nil) = pos 0
  total_of (some (cons v vs)) = elim (as_document Double v) [
    | none ↦ pos 0
    | some doc ↦ to_int64 Double truncate (get Double "n" doc)
  ]

  -- One round of the loop over the levels: the map and `errCount`, by its bit pattern.
  unfoldable pub level_round : Option (Fields Double) → GoMap ℤ × ℕ → GoMap ℤ × ℕ
  level_round none (m, err_count) = (m, err_count)
  level_round (some doc) (m, err_count) =
      let lvl = text_or_empty Double (get Double "_id" doc) in
      let n = to_int64 Double truncate (get Double "n" doc) in
      (insert lvl n m, if is_error_level lvl then add64 err_count n else err_count)

  unfoldable pub level_loop : Items Double → GoMap ℤ × ℕ → GoMap ℤ × ℕ
  level_loop nil acc = acc
  level_loop (cons v vs) acc = level_loop vs (level_round (as_document Double v) acc)

  unfoldable pub service_round : Option (Fields Double) → GoMap ℤ → GoMap ℤ
  service_round none m = m
  service_round (some doc) m =
      insert (text_or_empty Double (get Double "_id" doc))
        (to_int64 Double truncate (get Double "n" doc)) m

  unfoldable pub service_loop : Items Double → GoMap ℤ → GoMap ℤ
  service_loop nil m = m
  service_loop (cons v vs) m = service_loop vs (service_round (as_document Double v) m)

  unfoldable pub set_levels : Option (Items Double) → Stats → Stats
  set_levels none s = s
  set_levels (some vs) s =
      let (m, err_count) = level_loop vs (s.by_level, 0) in
      record s {
        by_level = m;
        error_rate =
            if ltb_ℤ (pos 0) s.total_events
            then divide (of_int64 (signed64 err_count)) (of_int64 s.total_events)
            else s.error_rate;
      }

  unfoldable pub set_services : Option (Items Double) → Stats → Stats
  set_services none s = s
  set_services (some vs) s = record s { by_service = service_loop vs s.by_service }

  unfoldable pub read_facets : Time → Time → List (Fields Double) → Stats
  read_facets since now [] = empty_stats since now
  read_facets since now (raw ∷ more) =
      set_services (as_array Double (get Double "by_service" raw)) (
        set_levels (as_array Double (get Double "by_level" raw)) (record (empty_stats since now) {
          total_events = total_of (as_array Double (get Double "total" raw));
        }))

  unfoldable pub stats_of : Time → Time → Aggregated → StatsResult
  stats_of since now (aggregate_failed e) = stats_failed e
  stats_of since now (aggregated raw) = snapshot (read_facets since now raw)

  -- `now` is what `time.Now().UTC()` reads.
  unfoldable pub aggregate_stats : (Items Double → Aggregated) → Time → Time → StatsResult
  aggregate_stats aggregate now since = stats_of since now (aggregate (stats_pipeline since))
