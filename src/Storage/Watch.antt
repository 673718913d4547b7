-- ===== src/Storage/Watch.antt =====
-- `WatchErrors` and `LoadRules` of internal/storage/mongo.go, in what they ask the driver for.
-- `watch` stands for its `Watch`, `find` for `Find` and `All` on the collection of rules. The
-- goroutine that `WatchErrors` starts is in Alert/Run.
use distributed_logs_aggrega.Base.{true}
use distributed_logs_aggrega.Storage.Documents.{
  boolean, text, array, document, Items, nil, cons, Fields, end, field,
}
use distributed_logs_aggrega.Alert.Rules.{LoadedRules}
use distributed_logs_aggrega.Alert.Run.{Watched}

-- `options.ChangeStream().SetFullDocument(options.UpdateLookup)`
pub data FullDocument : Type 0 where
  default_document update_lookup : FullDocument

module _ (Double : Type 0) where
  -- `bson.M{"$in": bson.A{"ERROR", "FATAL"}}`
  abbrev pub error_levels : Items Double
  error_levels = cons (text "ERROR") (cons (text "FATAL") nil)

  abbrev pub match_stage : Fields Double
  match_stage =
      field "operationType" (text "insert")
        (field "fullDocument.level" (document (field "$in" (array error_levels) end)) end)

  unfoldable pub watch_pipeline : Items Double
  watch_pipeline = cons (document (field "$match" (document match_stage) end)) nil

  unfoldable pub watch_errors : (Items Double → FullDocument → Watched) → Watched
  watch_errors watch = watch watch_pipeline update_lookup

  unfoldable pub rules_filter : Fields Double
  rules_filter = field "enabled" (boolean true) end

  unfoldable pub load_rules : (Fields Double → LoadedRules) → LoadedRules
  load_rules find = find rules_filter
