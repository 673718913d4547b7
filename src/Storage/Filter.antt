-- ===== src/Storage/Filter.antt =====
-- What `Query` asks the store for.
use distributed_logs_aggrega.Base.{
  String, ◌≡◌, refl, ◌∙◌, Bool, true, false, not, ◌&&◌, ◌||◌, ◌==◌, arith, eq_iff, if◌then◌else◌,
  Bool-cases, inl, inr,
}
use distributed_logs_aggrega.Base.Int.{pos, ◌≤ℤ◌}
use distributed_logs_aggrega.Models.{QueryFilter, Time, is_zero}
use distributed_logs_aggrega.Storage.Documents.{
  Bson, null, text, date, document, Fields, end, get, put, get-put,
}
use distributed_logs_aggrega.Storage.Query.{
  FindQuery, effective_limit, put_text, put_date, put_range, put_search, query_filter, find_query,
}

module _ (Double : Type 0) where
  abbrev pub unless_empty : String → Bson Double
  unless_empty s = if s == "" then null else text s

  abbrev pub unless_zero : Time → Bson Double
  unless_zero t = if is_zero t then null else date t

  -- The value at "timestamp": nothing without a bound, else a document of the bounds that are set.
  abbrev pub IsRange : QueryFilter → Bson Double → Type 0
  IsRange f (document m) =
      ((is_zero f.start_time && is_zero f.end_time) ≡ false)
      × (get Double "$gte" m ≡ unless_zero f.start_time)
      × (get Double "$lte" m ≡ unless_zero f.end_time)
  IsRange f v = (v ≡ null) × ((is_zero f.start_time && is_zero f.end_time) ≡ true)

  -- The value at "message": nothing for an empty search, else a case-insensitive pattern.
  abbrev pub IsSearch : QueryFilter → Bson Double → Type 0
  IsSearch f (document m) =
      ((f.search == "") ≡ false)
      × (get Double "$regex" m ≡ text f.search)
      × (get Double "$options" m ≡ text "i")
  IsSearch f v = (v ≡ null) × ((f.search == "") ≡ true)

  abbrev is_key : String → Bool
  is_key k = k == "service_name" || (k == "level" || (k == "timestamp" || k == "message"))

  pub record Asks (f : QueryFilter) (q : FindQuery Double) : Type 0 where
    pub service : get Double "service_name" q.filter ≡ unless_empty f.service_name
    pub level : get Double "level" q.filter ≡ unless_empty f.level
    pub timestamp : IsRange f (get Double "timestamp" q.filter)
    pub message : IsSearch f (get Double "message" q.filter)
    pub only : (k : String) → is_key k ≡ false → get Double k q.filter ≡ null
    pub at_least : pos 1 ≤ℤ q.limit
    pub at_most : q.limit ≤ℤ pos 5000
    pub kept : pos 1 ≤ℤ f.limit → f.limit ≤ℤ pos 5000 → q.limit ≡ f.limit

  get-put_text :
      (key s k : String) (m : Fields Double)
      → get Double k (put_text Double key s m)
        ≡ (if key == k && not (s == "") then text s else get Double k m)
  get-put_text key s k m = ground (arith, get-put Double key k (text s) m)

  abbrev range_document : Time → Time → Fields Double
  range_document start stop = put_date Double "$lte" stop (put_date Double "$gte" start end)

  get-put_range :
      (start stop : Time) (k : String) (m : Fields Double)
      → get Double k (put_range Double start stop m) ≡ (
          if "timestamp" == k && not (is_zero start && is_zero stop)
          then document (range_document start stop)
          else get Double k m)
  unfolding put_range
  get-put_range start stop k m =
      ground (arith, get-put Double "timestamp" k (document (range_document start stop)) m)

  abbrev search_document : String → Fields Double
  search_document s = put Double "$options" (text "i") (put Double "$regex" (text s) end)

  get-put_search :
      (s k : String) (m : Fields Double)
      → get Double k (put_search Double s m)
        ≡ (if "message" == k && not (s == "") then document (search_document s) else get Double k m)
  unfolding put_search
  get-put_search s k m = ground (arith, get-put Double "message" k (document (search_document s)) m)

  get-query_filter :
      (f : QueryFilter) (k : String)
      → get Double k (query_filter Double f) ≡ (
          if "message" == k && not (f.search == "")
          then document (search_document f.search)
          else if "timestamp" == k && not (is_zero f.start_time && is_zero f.end_time)
          then document (range_document f.start_time f.end_time)
          else if "level" == k && not (f.level == "")
          then text f.level
          else if "service_name" == k && not (f.service_name == "")
          then text f.service_name
          else null)
  unfolding query_filter get
  get-query_filter f k =
      rw
        (
          get-put_search f.search k _,
          get-put_range f.start_time f.end_time k _,
          get-put_text "level" f.level k _,
          get-put_text "service_name" f.service_name k _,
        )
        refl

  get-gte : (start stop : Time) → get Double "$gte" (range_document start stop) ≡ unless_zero start
  unfolding get put
  get-gte start stop = ground arith

  get-lte : (start stop : Time) → get Double "$lte" (range_document start stop) ≡ unless_zero stop
  unfolding get put
  get-lte start stop = ground arith

  range_document-IsRange :
      (f : QueryFilter)
      → IsRange f (
          if not (is_zero f.start_time && is_zero f.end_time)
          then document (range_document f.start_time f.end_time)
          else null)
  range_document-IsRange f = elim (Bool-cases (is_zero f.start_time && is_zero f.end_time)) [
    | inl e ↦ rw e (refl, e)
    | inr e ↦ rw e (e, get-gte f.start_time f.end_time, get-lte f.start_time f.end_time)
  ]

  search_document-IsSearch :
      (f : QueryFilter)
      → IsSearch f (if not (f.search == "") then document (search_document f.search) else null)
  unfolding get put
  search_document-IsSearch f = elim (Bool-cases (f.search == "")) [
    | inl a ↦ rw a (refl, a)
    | inr a ↦ rw a (a, refl, refl)
  ]

  other :
      (f : QueryFilter) (k : String)
      → is_key k ≡ false
      → get Double k (query_filter Double f) ≡ null
  other f k h =
      get-query_filter f k
      ∙ ground (
        arith,
        eq_iff k "message",
        eq_iff "message" k,
        eq_iff k "timestamp",
        eq_iff "timestamp" k,
        eq_iff k "level",
        eq_iff "level" k,
        eq_iff k "service_name",
        eq_iff "service_name" k,
      )

  -- The filter document has the service and the level as they are given, a range of timestamps and a
  -- search pattern, each just if the query sets it, and no other key; the limit is between 1 and 5000,
  -- and is the query's if that is.
  pub find_query-Asks : (f : QueryFilter) → Asks f (find_query Double f)
  unfolding find_query effective_limit get put
  find_query-Asks f = record {
    service = rw (get-query_filter f "service_name") (ground arith);
    level = rw (get-query_filter f "level") (ground arith);
    timestamp = rw (get-query_filter f "timestamp") (range_document-IsRange f);
    message = rw (get-query_filter f "message") (search_document-IsSearch f);
    only = λ k h. other f k h;
    at_least = ground arith;
    at_most = ground arith;
    kept = λ l u. ground arith;
  }
