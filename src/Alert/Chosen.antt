-- ===== src/Alert/Chosen.antt =====
-- Which rules an event fires, in which order, against a reading of internal/alert/dispatcher.go.
use distributed_logs_aggrega.Base.{
  ◌≡◌, refl, inl, inr, Bool, true, false, ◌&&◌, List, [], ◌∷◌, ◌==◌, eq_iff, if◌then◌else◌,
  Bool-cases, arith, ◌≢◌,
}
use distributed_logs_aggrega.Models.{LogEvent, level_fatal}
use distributed_logs_aggrega.Alert.Services.{Services, CompiledRule, Dispatcher}
use distributed_logs_aggrega.Alert.Fire.{fire}
use distributed_logs_aggrega.Alert.Evaluate.{
  fatal_default, skips, fire_matching, is_empty, evaluate,
}
use distributed_logs_aggrega.Alert.Matching.{Applies, skips-Applies, Applies-skips}

module _ (sv : Services) where
  -- The second list has the rules of the first that apply, in their order.
  pub data Selected (ev : LogEvent) : List (CompiledRule sv) → List (CompiledRule sv) → Type 0 where
    nothing : Selected ev [] []
    picks :
        {r : CompiledRule sv} {rs xs : List (CompiledRule sv)}
        → Applies sv r ev
        → Selected ev rs xs
        → Selected ev (r ∷ rs) (r ∷ xs)
    passes :
        {r : CompiledRule sv} {rs xs : List (CompiledRule sv)}
        → ¬ Applies sv r ev
        → Selected ev rs xs
        → Selected ev (r ∷ rs) xs

  abbrev pub fire_each : List (CompiledRule sv) → LogEvent → Dispatcher sv → Dispatcher sv
  fire_each [] ev d = d
  fire_each (r ∷ rs) ev d = fire_each rs ev (fire sv r.rule ev d)

  -- What an event does by the rules that are there.
  abbrev pub Fires : List (CompiledRule sv) → LogEvent → Dispatcher sv → Dispatcher sv → Type 0
  Fires [] ev d d' =
      (ev.level ≡ level_fatal → d' ≡ fire sv fatal_default ev d) × (ev.level ≢ level_fatal → d' ≡ d)
  Fires (r ∷ rs) ev d d' =
      (xs : List (CompiledRule sv)) × Selected ev (r ∷ rs) xs × (d' ≡ fire_each xs ev d)

  fire_matching-Selected :
      (rs : List (CompiledRule sv)) (ev : LogEvent)
      → (xs : List (CompiledRule sv)) × Selected ev rs xs
        × ((d : Dispatcher sv) → fire_matching sv rs ev d ≡ fire_each xs ev d)
  unfolding fire_matching
  fire_matching-Selected [] ev = ([], nothing, (λ d. refl))
  fire_matching-Selected (r ∷ rs) ev =
      let (xs, chosen, same) = fire_matching-Selected rs ev in
      elim (Bool-cases (skips sv r ev)) [
        | inl s ↦ (xs, passes (λ a. cc (s, Applies-skips sv r ev a)) chosen, (λ d. rw s (same d)))
        | inr f ↦ (
          r ∷ xs,
          picks (skips-Applies sv r ev f) chosen,
          (λ d. rw f (same (fire sv r.rule ev d))),
        )
      ]

  and-false : (a : Bool) → (a && false) ≡ false
  and-false a = ground arith

  and-true : (a : Bool) → (a && true) ≡ a
  and-true a = ground arith

  by_rules :
      (rs : List (CompiledRule sv)) (ev : LogEvent) (d : Dispatcher sv)
      → Fires rs ev d (
          if ev.level == level_fatal && is_empty sv rs
          then fire sv fatal_default ev d
          else fire_matching sv rs ev d)
  unfolding fire_matching
  by_rules [] ev d = (
    (λ h. rw (and-true (ev.level == level_fatal), (eq_iff ev.level level_fatal).1 h) refl),
    (λ h. elim (Bool-cases (ev.level == level_fatal)) [
      | inl e ↦ absurd (h ((eq_iff ev.level level_fatal).0 e))
      | inr e ↦ rw (and-true (ev.level == level_fatal), e) refl
    ]),
  )
  by_rules (r ∷ rs) ev d =
      let (xs, chosen, same) = fire_matching-Selected (r ∷ rs) ev in
      (xs, chosen, rw (and-false (ev.level == level_fatal)) (same d))

  -- With rules, an event fires those that apply to it, each once, in their order, and nothing else,
  -- also if it is FATAL and none applies. Without rules a FATAL event fires the default rule, and any
  -- other does nothing.
  pub evaluate-Fires : (ev : LogEvent) (d : Dispatcher sv) → Fires d.rules ev d (evaluate sv ev d)
  unfolding evaluate
  evaluate-Fires ev d = by_rules d.rules ev d
