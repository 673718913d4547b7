-- ===== src/Cmd/Ingestor/Api/Search.antt =====
-- A search for logs, from the request to the store and back.
use distributed_logs_aggrega.Base.{
  ℕ, String, ◌≡◌, ◌≢◌, refl, sym, ◌⊎◌, ap, ◌∙◌, none, some, Option, [], ◌∷◌, length, ◌==◌, eq_iff,
  arith, Bool-cases, inl, inr,
}
use distributed_logs_aggrega.Base.Decimal.{decimal_ℤ}
use distributed_logs_aggrega.Base.Int.{ℤ, pos, negsuc, ◌≤ℤ◌, ◌+ℤ◌}
use distributed_logs_aggrega.Config.Port.{InRange, atoi-decimal_ℤ, decimal_ℤ-ne_empty}
use distributed_logs_aggrega.Http.{Request, event_list, error_body}
use distributed_logs_aggrega.Models.{QueryFilter, Time, zero_time}
use distributed_logs_aggrega.Storage.Query
use distributed_logs_aggrega.Storage.Query.{
  FindQuery, Found, found, find_failed, find_query, effective_limit,
}
use distributed_logs_aggrega.Storage.Filter.{Asks, find_query-Asks}
use distributed_logs_aggrega.Storage.Aggregate.{Doubles, Stats}
use distributed_logs_aggrega.Storage.Buckets.{Bucket}
use distributed_logs_aggrega.Ingestion.{Pipeline}
use distributed_logs_aggrega.Middleware.Requests.{Ended}
use distributed_logs_aggrega.Processor
use distributed_logs_aggrega.Processor.{
  ApiWriter, Served, filter_of, query_reply, neg64, write_json,
}
use distributed_logs_aggrega.Cmd.Ingestor.Routes.{query, Mux, Documented}
use distributed_logs_aggrega.Cmd.Ingestor.Api.{Backend, on_pipeline, handler_of, answer}
use distributed_logs_aggrega.Cmd.Ingestor.Api.Reaches.{answer-Reaches}

-- A number between 1 and 5000 in decimal is the limit.
module _ (ds : Doubles) (parse : String → Option ℤ) (now : Time) (param : String → String) where
  filter_limit :
      (z : ℤ) → param "limit" ≡ decimal_ℤ z → InRange z → (filter_of ds parse now param).limit ≡ z
  unfolding filter_of
  filter_limit z h b = elim (Bool-cases (param "limit" == "")) [
    | inl e ↦ absurd (decimal_ℤ-ne_empty z b (sym h ∙ (eq_iff (param "limit") "").0 e))
    | inr e ↦ rw (e, h, atoi-decimal_ℤ z b) refl
  ]

  filter_unlimited : param "limit" ≡ "" → (filter_of ds parse now param).limit ≡ pos 0
  unfolding filter_of
  filter_unlimited h = rw h refl

  filter_since :
      (d : ℤ)
      → parse (param "since") ≡ some d
      → param "since" ≢ ""
      → (filter_of ds parse now param).start_time ≡ now +ℤ neg64 d
  unfolding filter_of
  filter_since d h given = elim (Bool-cases (param "since" == "")) [
    | inl e ↦ absurd (given ((eq_iff (param "since") "").0 e))
    | inr e ↦ rw (e, h) refl
  ]

  filter_unbounded :
      parse (param "since") ≡ none → (filter_of ds parse now param).start_time ≡ zero_time
  unfolding filter_of
  filter_unbounded h = elim (Bool-cases (param "since" == "")) [
    | inl e ↦ rw e refl
    | inr e ↦ rw (e, h) refl
  ]

-- A limit that is none or too large is the default.
effective_limit-out : (z : ℤ) → (z ≤ℤ pos 0) ⊎ (pos 5001 ≤ℤ z) → effective_limit z ≡ pos 200
unfolding effective_limit
effective_limit-out z h = ground arith

effective_limit-in : (z : ℤ) → pos 1 ≤ℤ z → z ≤ℤ pos 5000 → effective_limit z ≡ z
unfolding effective_limit
effective_limit-in z l u = ground arith

module _ (ds : Doubles) where
  -- What is written for what the store finds.
  abbrev pub Replies : Found → Served ds → Type 0
  Replies (found es) out = (out.0.status ≡ some 200) × (out.0.body ≡ event_list (length es) es ∷ [])
  Replies (find_failed e) out = (out.0.status ≡ some 500) × (out.0.body ≡ error_body e ∷ [])

  Ended-Replies :
      (elapsed : ℕ) (r : Request) (w : ApiWriter ds) (p : Pipeline) (x : Found) (out : Served ds)
      → w.status ≡ none
      → w.body ≡ []
      → Ended (Stats ds) Bucket Pipeline on_pipeline elapsed r (query_reply ds w p x) out
      → Replies x out
  unfolding query_reply write_json
  Ended-Replies elapsed r w p (found es) out s t h = rw h (rw s refl, rw t refl)
  Ended-Replies elapsed r w p (find_failed e) out s t h = rw h (rw s refl, rw t refl)

  -- How a search went: what the store was asked for, by the parameters of the request, and what was
  -- answered.
  pub record Searched (b : Backend ds) (r : Request) (out : Served ds) : Type 0 where
    pub filter : QueryFilter
    pub asked : FindQuery ds.Double
    pub service : filter.service_name ≡ r.param "service"
    pub level : filter.level ≡ r.param "level"
    pub text : filter.search ≡ r.param "q"
    pub since :
        (d : ℤ)
        → b.parse (r.param "since") ≡ some d
        → r.param "since" ≢ ""
        → filter.start_time ≡ b.now +ℤ neg64 d
    pub unbounded : b.parse (r.param "since") ≡ none → filter.start_time ≡ zero_time
    pub no_end : filter.end_time ≡ zero_time
    pub asks : Asks ds.Double filter asked
    pub limited :
        (z : ℤ)
        → r.param "limit" ≡ decimal_ℤ z
        → InRange z
        → pos 1 ≤ℤ z
        → z ≤ℤ pos 5000
        → asked.limit ≡ z
    pub beyond :
        (z : ℤ)
        → r.param "limit" ≡ decimal_ℤ z
        → InRange z
        → (z ≤ℤ pos 0) ⊎ (pos 5001 ≤ℤ z)
        → asked.limit ≡ pos 200
    pub unlimited : r.param "limit" ≡ "" → asked.limit ≡ pos 200
    pub newest_first : asked.sort ≡ ("timestamp", negsuc 0) ∷ []
    pub answered : Replies (b.find asked) out

  -- A GET of /api/v1/logs asks the store for what its parameters say, and nothing else: the service,
  -- the level and the text as they are given, each if it is not empty; from the duration `since` ago on
  -- if that is one, and without a bound if not; the newest first, and as many as `limit` says in
  -- decimal if that is between 1 and 5000, but 200 if it is another int64 or not there. It is answered
  -- with 200, the events that the store finds and their number, or with 500 and the store's error.
  pub search-Searched :
      (b : Backend ds) (mux : Mux) (elapsed : ℕ) (r : Request) (p : Pipeline)
      → Documented mux
      → r.method ≡ "GET"
      → r.path ≡ "/api/v1/logs"
      → mux.clean r.path ≡ r.path
      → Searched b r (answer ds b mux elapsed r p)
  unfolding handler_of Processor.query Query.query find_query filter_of
  search-Searched b mux elapsed r p doc m q clean =
      let f : QueryFilter = filter_of ds b.parse b.now r.param in
      record {
        filter = f;
        asked = find_query ds.Double f;
        service = refl;
        level = refl;
        text = refl;
        since = λ d h given. filter_since ds b.parse b.now r.param d h given;
        asks = find_query-Asks ds.Double f;
        limited = λ z h i l u.
            ap effective_limit (filter_limit ds b.parse b.now r.param z h i)
            ∙ effective_limit-in z l u;
        beyond = λ z h i o.
            ap effective_limit (filter_limit ds b.parse b.now r.param z h i)
            ∙ effective_limit-out z o;
        unlimited = λ h.
            ap effective_limit (filter_unlimited ds b.parse b.now r.param h)
            ∙ effective_limit-out (pos 0) (inl (omega arith));
        unbounded = λ h. filter_unbounded ds b.parse b.now r.param h;
        no_end = refl;
        newest_first = refl;
        answered =
            Ended-Replies elapsed r _ p _ _ refl refl
              (answer-Reaches ds b mux elapsed query r p doc m q clean);
      }
