-- ===== src/Storage/Query.antt =====
-- `Query` of internal/storage/mongo.go. `find` stands for the driver's `Find` and `All`.
use distributed_logs_aggrega.Base.{String, ◌&&◌, ◌||◌, List, [], ◌∷◌, ◌==◌, if◌then◌else◌}
use distributed_logs_aggrega.Base.Int.{ℤ, pos, negsuc, leb_ℤ, ltb_ℤ}
use distributed_logs_aggrega.Models.{LogEvent, QueryFilter, Time, is_zero}
use distributed_logs_aggrega.Storage.Documents.{text, date, document, Fields, end, put}

-- What the store is asked for: the filter, the sort order (a `bson.D` of keys) and the limit.
pub record FindQuery (Double : Type 0) : Type 0 where
  pub filter : Fields Double
  pub sort : List (String × ℤ)
  pub limit : ℤ

-- The documents found, or the error of `Find` or of `All`.
pub data Found : Type 0 where
  found : List LogEvent → Found
  find_failed : String → Found

-- `if limit <= 0 || limit > 5000 { limit = 200 }`
unfoldable pub effective_limit : ℤ → ℤ
effective_limit limit = if leb_ℤ limit (pos 0) || ltb_ℤ (pos 5000) limit then pos 200 else limit

module _ (Double : Type 0) where
  abbrev pub put_text : String → String → Fields Double → Fields Double
  put_text key s m = if s == "" then m else put Double key (text s) m

  abbrev pub put_date : String → Time → Fields Double → Fields Double
  put_date key t m = if is_zero t then m else put Double key (date t) m

  unfoldable pub put_range : Time → Time → Fields Double → Fields Double
  unfolding is_zero
  put_range start stop m =
      if is_zero start && is_zero stop
      then m
      else put Double "timestamp" (document (put_date "$lte" stop (put_date "$gte" start end))) m

  unfoldable pub put_search : String → Fields Double → Fields Double
  put_search search m =
      if search == ""
      then m
      else put Double "message"
          (document (put Double "$options" (text "i") (put Double "$regex" (text search) end))) m

  unfoldable pub query_filter : QueryFilter → Fields Double
  query_filter f = put_search f.search (
      put_range f.start_time f.end_time
        (put_text "level" f.level (put_text "service_name" f.service_name end)))

  unfoldable pub find_query : QueryFilter → FindQuery Double
  find_query f = record {
    filter = query_filter f;
    sort = ("timestamp", negsuc 0) ∷ [];
    limit = effective_limit f.limit;
  }

  unfoldable pub query : (FindQuery Double → Found) → QueryFilter → Found
  query find f = find (find_query f)
