-- ===== src/Storage/ErrorRate.antt =====
-- What `AggregateStats` makes of the groups by level.
use distributed_logs_aggrega.Base.{
  ℕ, ◌+◌, ◌%◌, ◌^◌, ◌<◌, String, ◌≡◌, refl, ap, ◌∙◌, true, false, none, some, [], ◌∷◌, eq_iff, ltb,
  arith, if◌then◌else◌,
}
use distributed_logs_aggrega.Base.Int.{ℤ, pos, ltb_ℤ}
use distributed_logs_aggrega.Base.Word.{signed64, add64, add64-lt, modulus}
use distributed_logs_aggrega.Base.GoMap.{GoMap, lookup, insert, lookup-insert, UniqueKeys}
use distributed_logs_aggrega.Models.{Time, level_error, level_fatal}
use distributed_logs_aggrega.Storage.Documents.{Items, get}
use distributed_logs_aggrega.Storage.Groups.{
  group_items, count_items, facets, number_of, pos_or, weight, weight_lem, to_int64-number,
}
use distributed_logs_aggrega.Storage.Aggregate.{
  Doubles, total_of, is_error_level, level_round, level_loop, service_round, service_loop,
  set_levels, set_services, Stats, Aggregated, aggregated, stats_pipeline, aggregate_stats,
  stats_of, read_facets, snapshot,
}

add_mod : (e n w : ℕ) → (add64 e (pos n) + w) % modulus ≡ (e + (n + w)) % modulus
add_mod e n w = omega arith

module _ (ds : Doubles) where
  open ds use {Double, truncate, of_int64, divide}

  -- One round of each loop.
  level_loop-cons :
      (lvl : String) (n : ℕ) (gs : GoMap ℕ) (m : GoMap ℤ) (e : ℕ)
      → level_loop ds (group_items Double ((lvl, n) ∷ gs)) (m, e)
        ≡ level_loop ds
            (group_items Double gs)
            (insert lvl (pos n) m, if is_error_level lvl then add64 e (pos n) else e)
  unfolding level_loop level_round get
  level_loop-cons lvl n gs m e =
      ap
        (λ (x : ℤ).
          level_loop ds (group_items Double gs)
            (insert lvl x m, if is_error_level lvl then add64 e x else e))
        (to_int64-number truncate n)

  service_loop-cons :
      (key : String) (n : ℕ) (gs : GoMap ℕ) (m : GoMap ℤ)
      → service_loop ds (group_items Double ((key, n) ∷ gs)) m
        ≡ service_loop ds (group_items Double gs) (insert key (pos n) m)
  unfolding service_loop service_round get
  service_loop-cons key n gs m =
      ap (λ (x : ℤ). service_loop ds (group_items Double gs) (insert key x m))
        (to_int64-number truncate n)

  level_loop-errors :
      (gs : GoMap ℕ) (m : GoMap ℤ) (e : ℕ)
      → e < modulus
      → (level_loop ds (group_items Double gs) (m, e)).1 ≡ (e + weight gs) % modulus
  unfolding level_loop
  level_loop-errors [] m e h = omega arith
  level_loop-errors ((lvl, n) ∷ gs) m e h =
      let m' = insert lvl (pos n) m in
      ap (λ x. x.1) (level_loop-cons lvl n gs m e)
      ∙ elim (is_error_level lvl)
          as (λ b.
            (level_loop ds (group_items Double gs) (m', if b then add64 e (pos n) else e)).1
            ≡ (e + (if b then n + weight gs else weight gs)) % modulus) [
              | true ↦
                  level_loop-errors gs m' (add64 e (pos n)) (add64-lt e (pos n))
                  ∙ add_mod e n (weight gs)
              | false ↦ level_loop-errors gs m' e h
            ]

  level_loop-lookup :
      (gs : GoMap ℕ) (m : GoMap ℤ) (e : ℕ) (k : String)
      → UniqueKeys gs
      → lookup k (level_loop ds (group_items Double gs) (m, e)).0
        ≡ pos_or (lookup k gs) (lookup k m)
  unfolding level_loop lookup
  level_loop-lookup [] m e k u = refl
  level_loop-lookup ((lvl, n) ∷ gs) m e k u =
      ap (λ x. lookup k x.0) (level_loop-cons lvl n gs m e)
      ∙ ground (
        arith,
        eq_iff lvl k,
        lookup-insert lvl k (pos n) m,
        level_loop-lookup gs (insert lvl (pos n) m) e k u.1,
        level_loop-lookup gs (insert lvl (pos n) m) (add64 e (pos n)) k u.1,
      )

  service_loop-lookup :
      (gs : GoMap ℕ) (m : GoMap ℤ) (k : String)
      → UniqueKeys gs
      → lookup k (service_loop ds (group_items Double gs) m) ≡ pos_or (lookup k gs) (lookup k m)
  unfolding service_loop lookup
  service_loop-lookup [] m k u = refl
  service_loop-lookup ((key, n) ∷ gs) m k u =
      ap (lookup k) (service_loop-cons key n gs m)
      ∙ ground (
        arith,
        eq_iff key k,
        lookup-insert key k (pos n) m,
        service_loop-lookup gs (insert key (pos n) m) k u.1,
      )

  pub record Summarises (total : ℕ) (levels services : GoMap ℕ) (s : Stats ds) : Type 0 where
    pub total_events : s.total_events ≡ pos total
    pub by_level : (k : String) → lookup k s.by_level ≡ pos_or (lookup k levels) none
    pub by_service : (k : String) → lookup k s.by_service ≡ pos_or (lookup k services) none
    pub error_rate : s.error_rate ≡ (
        if ltb 0 total
        then divide
            (of_int64 (pos (number_of level_error levels + number_of level_fatal levels)))
            (of_int64 (pos total))
        else of_int64 (pos 0))

  signed64_lem : (n : ℕ) → n < 2 ^ 63 → signed64 ((0 + n) % modulus) ≡ pos n
  signed64_lem n h = ground arith

  ltb_lem : (n : ℕ) → ltb_ℤ (pos 0) (pos n) ≡ ltb 0 n
  ltb_lem n = ground arith

  total_lem : (total : ℕ) → total_of ds (some (count_items Double total)) ≡ pos total
  unfolding get
  total_lem total = ground (arith, to_int64-number truncate total)

  -- The error count of the loop, as an integer.
  errors_lem :
      (levels : GoMap ℕ)
      → UniqueKeys levels
      → number_of level_error levels + number_of level_fatal levels < 2 ^ 63
      → signed64 (level_loop ds (group_items Double levels) ([], 0)).1
        ≡ pos (number_of level_error levels + number_of level_fatal levels)
  errors_lem levels u few =
      ap signed64 (
        level_loop-errors levels [] 0 (omega arith)
        ∙ ap (λ w. (0 + w) % modulus) (weight_lem levels u))
      ∙ signed64_lem _ few

  read_facets-Summarises :
      (now since : Time) (total : ℕ) (levels services : GoMap ℕ)
      → UniqueKeys levels
      → UniqueKeys services
      → number_of level_error levels + number_of level_fatal levels < 2 ^ 63
      → Summarises total levels services
          (read_facets ds since now (facets Double total levels services ∷ []))
  unfolding read_facets set_levels set_services get lookup
  read_facets-Summarises now since total levels services ul us few = record {
    total_events = total_lem total;
    by_level = λ k. level_loop-lookup levels [] 0 k ul;
    by_service = λ k. service_loop-lookup services [] k us;
    error_rate = rw (total_lem total, errors_lem levels ul few, ltb_lem total) refl;
  }

  -- If the store answers with the number of events and their numbers by level and by service, each a
  -- 32-bit integer where it fits and else a 64-bit one, as the server counts, and those of the levels ERROR and FATAL together are in the range of an int64, then the snapshot has
  -- these numbers, and its error rate is the events at ERROR or FATAL over all events, or zero if
  -- there are none.
  pub aggregate_stats-Summarises :
      (aggregate : Items Double → Aggregated ds) (now since : Time) (total : ℕ)
      (levels services : GoMap ℕ)
      → aggregate (stats_pipeline ds since) ≡ aggregated (facets Double total levels services ∷ [])
      → UniqueKeys levels
      → UniqueKeys services
      → number_of level_error levels + number_of level_fatal levels < 2 ^ 63
      → (s : Stats ds) × (aggregate_stats ds aggregate now since ≡ snapshot s)
        × Summarises total levels services s
  unfolding aggregate_stats stats_of read_facets set_levels set_services get
  aggregate_stats-Summarises aggregate now since total levels services answer ul us few = (
    read_facets ds since now (facets Double total levels services ∷ []),
    ap (stats_of ds since now) answer,
    read_facets-Summarises now since total levels services ul us few,
  )
