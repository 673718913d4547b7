-- ===== src/Alert/Delivery.antt =====
-- What the counter of alerts and the requests sent have to do with each other.
use distributed_logs_aggrega.Base.{
  ℕ, ◌+◌, ◌≤◌, ◌≡◌, refl, ap, ◌∙◌, inl, inr, Bool, true, false, not, ◌&&◌, ◌||◌, String, Option,
  none, some, List, [], ◌∷◌, ◌==◌, length, count, ltb, arith, if◌then◌else◌, Bool-cases,
}
use distributed_logs_aggrega.Metrics.{Collectors}
use distributed_logs_aggrega.Config.{AlerterConfig}
use distributed_logs_aggrega.Models.{AlertRule, LogEvent, level_fatal}
use distributed_logs_aggrega.Alert.Services.{
  Services, CompiledRule, Dispatcher, Answer, status, no_response, Failure, Sent,
}
use distributed_logs_aggrega.Alert.Fire.{failure_of, send, post_valid, post, settle, notify, fire}
use distributed_logs_aggrega.Alert.Evaluate.{
  fatal_default, skips, fire_matching, is_empty, evaluate,
}

-- An answer with a status below 300.
abbrev pub gets_through : Answer → Bool
gets_through (no_response e) = false
gets_through (status s) = ltb s 300

abbrev pub one_if_none : Option Failure → ℕ
one_if_none none = 1
one_if_none (some e) = 0

-- How many requests were answered with a status below 300.
pub delivered : Sent → ℕ
delivered [] = 0
delivered ((req, a) ∷ w) = (if gets_through a then 1 else 0) + delivered w

failure_of-one : (a : Answer) → (if gets_through a then 1 else 0) ≡ one_if_none (failure_of a)
unfolding failure_of
failure_of-one (no_response e) = refl
failure_of-one (status s) = ground arith

abbrev pub fired_of : Option Collectors → ℕ
fired_of none = 0
fired_of (some c) = c.alerts_fired_total

abbrev pub has : Option Collectors → Bool
has none = false
has (some c) = true

module _ (sv : Services) where
  open sv use {Breaker, Regexp, match_string, execute, executes, bad_url}

  -- From `d` to `d'` the counter grows as the delivered requests do.
  pub record Counts (d d' : Dispatcher sv) (most : ℕ) : Type 0 where
    pub cfg : d'.cfg ≡ d.cfg
    pub kept : has d'.collectors ≡ has d.collectors
    pub counted :
        has d.collectors ≡ true
        → fired_of d'.collectors + delivered d.sent ≡ fired_of d.collectors + delivered d'.sent
    pub bounded : length d'.sent ≤ length d.sent + most

  -- A call that sends at most one request, and reports whether it was delivered.
  record Reports (w : Sent) (e : Option Failure) (w' : Sent) : Type 0 where
    told : delivered w' ≡ one_if_none e + delivered w
    one : length w' ≤ length w + 1

  post_valid-Reports :
      (url payload : String) (b : Option String) (w : Sent)
      → Reports w (post_valid sv url payload b w).0 (post_valid sv url payload b w).1
  unfolding post_valid send delivered
  post_valid-Reports url payload (some e) w = record { told = omega arith; one = omega arith }
  post_valid-Reports url payload none w = record {
    told = ap (λ n. n + delivered w) (failure_of-one _);
    one = omega arith;
  }

  execute-Reports :
      (b : Breaker) (url payload : String) (w : Sent)
      → Reports w (execute b (post sv url payload) w).1 (execute b (post sv url payload) w).2
  unfolding post
  execute-Reports b url payload w = elim (executes b (post sv url payload) w) [
    | inl (e, s) ↦ rw (e, s) (post_valid-Reports url payload (bad_url url) w)
    | inr (e, refused, same) ↦ rw (refused, same) (record { told = omega arith; one = omega arith })
  ]

  settle-Counts :
      (d : Dispatcher sv) (r : Breaker × Option Failure × Sent)
      → Reports d.sent r.1 r.2
      → Counts d (settle sv d r) 1
  unfolding settle
  settle-Counts d (b, some e, w) h = record {
    cfg = refl;
    kept = refl;
    counted = λ c. omega (arith, h.told);
    bounded = h.one;
  }
  settle-Counts d (b, none, w) h = record {
    cfg = refl;
    kept = ground arith;
    counted = λ c. ground (arith, h.told);
    bounded = h.one;
  }

  Counts-refl : (d : Dispatcher sv) (n : ℕ) → Counts d d n
  Counts-refl d n = record { cfg = refl; kept = refl; counted = λ c. refl; bounded = omega arith }

  notify-Counts :
      (target payload : String) (d : Dispatcher sv) → Counts d (notify sv target payload d) 1
  unfolding notify
  notify-Counts target payload d = elim (Bool-cases (target == "")) [
    | inl e ↦ rw e (Counts-refl d 1)
    | inr e ↦ rw e (settle-Counts d _ (execute-Reports d.breaker target payload d.sent))
  ]

  fire-Counts :
      (rule : AlertRule) (ev : LogEvent) (d : Dispatcher sv)
      → d.cfg.enabled ≡ true
      → Counts d (fire sv rule ev d) 1
  unfolding fire
  fire-Counts rule ev d on = simp on (notify-Counts _ _ d)

  Counts-trans :
      (d d' d'' : Dispatcher sv) (m n : ℕ) → Counts d d' m → Counts d' d'' n → Counts d d'' (m + n)
  Counts-trans d d' d'' m n a b = record {
    cfg = b.cfg ∙ a.cfg;
    kept = b.kept ∙ a.kept;
    counted = λ c. omega (arith, a.counted c, b.counted (a.kept ∙ c));
    bounded = omega (arith, a.bounded, b.bounded);
  }

  abbrev pub holds : Option Regexp → String → Bool
  holds none s = true
  holds (some re) s = match_string re s

  -- Whether a rule applies to an event: a condition that is left out holds of any.
  abbrev pub applies : LogEvent → CompiledRule sv → Bool
  applies ev cr =
      (cr.rule.service_name == "" || cr.rule.service_name == ev.service_name)
      && ((cr.rule.level == "" || cr.rule.level == ev.level) && holds cr.pattern ev.message)

  skips_lem :
      (ev : LogEvent) (cr : CompiledRule sv) (o : Option Regexp)
      → cr.pattern ≡ o
      → skips sv cr ev ≡ not (applies ev cr)
  unfolding skips
  skips_lem ev cr none e = rw e (ground arith)
  skips_lem ev cr (some re) e = rw e (ground arith)

  abbrev pub matching : LogEvent → List (CompiledRule sv) → ℕ
  matching ev = count (applies ev)

  -- How many rules an event has to fire.
  abbrev pub due_by : LogEvent → List (CompiledRule sv) → ℕ
  due_by ev [] = if ev.level == level_fatal then 1 else 0
  due_by ev (cr ∷ crs) = matching ev (cr ∷ crs)

  abbrev pub due : LogEvent → Dispatcher sv → ℕ
  due ev d = due_by ev d.rules

  fire_matching-Counts :
      (crs : List (CompiledRule sv)) (ev : LogEvent) (d : Dispatcher sv)
      → d.cfg.enabled ≡ true
      → Counts d (fire_matching sv crs ev d) (matching ev crs)
  unfolding fire_matching count
  fire_matching-Counts [] ev d on = Counts-refl d 0
  fire_matching-Counts (cr ∷ crs) ev d on =
      rw (skips_lem ev cr cr.pattern refl) (elim (Bool-cases (applies ev cr)) [
        | inr s ↦ rw s (Counts-trans d d _ 0 _ (Counts-refl d 0) (fire_matching-Counts crs ev d on))
        | inl f ↦
            let one = fire-Counts cr.rule ev d on in
            rw f (
              Counts-trans d (fire sv cr.rule ev d) _ 1 _ one (
                fire_matching-Counts crs ev (fire sv cr.rule ev d)
                  (ap (λ (c : AlerterConfig). c.enabled) one.cfg ∙ on)))
      ])

  by_rules :
      (crs : List (CompiledRule sv)) (ev : LogEvent) (d : Dispatcher sv)
      → d.cfg.enabled ≡ true
      → Counts d
          (if ev.level == level_fatal && is_empty sv crs
            then fire sv fatal_default ev d
            else fire_matching sv crs ev d)
          (due_by ev crs)
  unfolding fire_matching
  by_rules [] ev d on = elim (Bool-cases (ev.level == level_fatal)) [
    | inl e ↦ rw e (fire-Counts fatal_default ev d on)
    | inr e ↦ rw e (Counts-refl d 0)
  ]
  by_rules (cr ∷ crs) ev d on = elim (Bool-cases (ev.level == level_fatal)) [
    | inl e ↦ rw e (fire_matching-Counts (cr ∷ crs) ev d on)
    | inr e ↦ rw e (fire_matching-Counts (cr ∷ crs) ev d on)
  ]

  -- While the alerter is enabled, evaluating an event leaves the configuration alone, and
  -- `AlertsFiredTotal`, if there are collectors, grows by exactly the number of requests that were
  -- answered with a status below 300; the event causes at most one request for each rule that applies
  -- to it, or one if there are no rules and it is FATAL.
  pub evaluate-Counts :
      (ev : LogEvent) (d : Dispatcher sv)
      → d.cfg.enabled ≡ true
      → Counts d (evaluate sv ev d) (due ev d)
  unfolding evaluate
  evaluate-Counts ev d on = by_rules d.rules ev d on
