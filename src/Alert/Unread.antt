-- ===== src/Alert/Unread.antt =====
-- The fields of a rule that an evaluation does not read.
use distributed_logs_aggrega.Base.{
  ◌≡◌, refl, ap, ◌∙◌, inl, inr, ◌&&◌, String, Option, none, some, List, [], ◌∷◌, map, ◌==◌,
  if◌then◌else◌, Bool-cases,
}
use distributed_logs_aggrega.Base.Int.{ℤ}
use distributed_logs_aggrega.Models.{AlertRule, LogEvent, level_fatal}
use distributed_logs_aggrega.Alert.Payload.{slack_text}
use distributed_logs_aggrega.Alert.Services.{Services, CompiledRule, Dispatcher, Failure, Sent}
use distributed_logs_aggrega.Alert.Fire.{settle, notify, fire}
use distributed_logs_aggrega.Alert.Evaluate.{
  fatal_default, skips, fire_matching, is_empty, evaluate,
}

module _ (sv : Services) where
  open sv use {Breaker, marshal_text, execute}

  -- A rule with another threshold, window and channel.
  abbrev pub rebudget : ℤ → ℤ → String → CompiledRule sv → CompiledRule sv
  rebudget threshold window channel cr = record cr {
    rule = record (cr.rule) { threshold = threshold; window_secs = window; channel = channel };
  }

  settle-rules :
      (d : Dispatcher sv) (crs : List (CompiledRule sv)) (r : Breaker × Option Failure × Sent)
      → settle sv (record d { rules = crs }) r ≡ record (settle sv d r) { rules = crs }
  unfolding settle
  settle-rules d crs (b, some e, w) = refl
  settle-rules d crs (b, none, w) = refl

  notify-rules :
      (target payload : String) (d : Dispatcher sv) (crs : List (CompiledRule sv))
      → notify sv target payload (record d { rules = crs })
        ≡ record (notify sv target payload d) { rules = crs }
  unfolding notify
  notify-rules target payload d crs = elim (Bool-cases (target == "")) [
    | inl e ↦ rw e refl
    | inr e ↦ rw e (settle-rules d crs _)
  ]

  fire-rules :
      (rule : AlertRule) (ev : LogEvent) (d : Dispatcher sv) (crs : List (CompiledRule sv))
      → fire sv rule ev (record d { rules = crs }) ≡ record (fire sv rule ev d) { rules = crs }
  unfolding fire
  fire-rules rule ev d crs = elim (Bool-cases d.cfg.enabled) [
    | inl e ↦ simp e (notify-rules _ _ d crs)
    | inr e ↦ simp e refl
  ]

  abbrev try_rule : CompiledRule sv → LogEvent → Dispatcher sv → Dispatcher sv
  try_rule cr ev d = if skips sv cr ev then d else fire sv cr.rule ev d

  skips-rebudget :
      (t w : ℤ) (ch : String) (cr : CompiledRule sv) (ev : LogEvent)
      → skips sv (rebudget t w ch cr) ev ≡ skips sv cr ev
  unfolding skips
  skips-rebudget t w ch cr ev = refl

  fire-rebudget :
      (t w : ℤ) (ch : String) (cr : CompiledRule sv) (ev : LogEvent) (d : Dispatcher sv)
      → fire sv (rebudget t w ch cr).rule ev d ≡ fire sv cr.rule ev d
  unfolding fire slack_text
  fire-rebudget t w ch cr ev d = refl

  try_rule-rebudget :
      (t w : ℤ) (ch : String) (cr : CompiledRule sv) (ev : LogEvent) (d : Dispatcher sv)
      (cs : List (CompiledRule sv))
      → try_rule (rebudget t w ch cr) ev (record d { rules = cs })
        ≡ record (try_rule cr ev d) { rules = cs }
  try_rule-rebudget t w ch cr ev d cs = elim (Bool-cases (skips sv cr ev)) [
    | inl e ↦ rw (skips-rebudget t w ch cr ev, e) refl
    | inr e ↦
        rw (skips-rebudget t w ch cr ev, e)
          (fire-rebudget t w ch cr ev _ ∙ fire-rules cr.rule ev d cs)
  ]

  fire_matching-rebudget :
      (t w : ℤ) (ch : String) (crs cs : List (CompiledRule sv)) (ev : LogEvent) (d : Dispatcher sv)
      → fire_matching sv (map (rebudget t w ch) crs) ev (record d { rules = cs })
        ≡ record (fire_matching sv crs ev d) { rules = cs }
  unfolding fire_matching
  fire_matching-rebudget t w ch [] cs ev d = refl
  fire_matching-rebudget t w ch (cr ∷ crs) cs ev d =
      ap (fire_matching sv (map (rebudget t w ch) crs) ev) (try_rule-rebudget t w ch cr ev d cs)
      ∙ fire_matching-rebudget t w ch crs cs ev (try_rule cr ev d)

  is_empty-map :
      (f : CompiledRule sv → CompiledRule sv) (crs : List (CompiledRule sv))
      → is_empty sv (map f crs) ≡ is_empty sv crs
  is_empty-map f [] = refl
  is_empty-map f (cr ∷ crs) = refl

  -- Thresholds, windows and channels are not read: with others in every rule an event has the same
  -- effects.
  pub evaluate-rebudget :
      (t w : ℤ) (ch : String) (ev : LogEvent) (d : Dispatcher sv)
      → evaluate sv ev (record d { rules = map (rebudget t w ch) d.rules })
        ≡ record (evaluate sv ev d) { rules = map (rebudget t w ch) d.rules }
  unfolding evaluate
  evaluate-rebudget t w ch ev d =
      elim (Bool-cases (ev.level == level_fatal && is_empty sv d.rules)) [
        | inl e ↦ rw (is_empty-map (rebudget t w ch) d.rules, e) (fire-rules fatal_default ev d _)
        | inr e ↦
            rw (is_empty-map (rebudget t w ch) d.rules, e)
              (fire_matching-rebudget t w ch d.rules _ ev d)
      ]
