-- ===== src/Alert/Refresh.antt =====
-- Which rules are there after a refresh.
use distributed_logs_aggrega.Base.{
  ◌≡◌, refl, ap, Bool, true, false, ◌||◌, Option, none, some, List, [], ◌∷◌, map, ◌==◌, All, inl,
  inr, Bool-cases, if◌then◌else◌,
}
use distributed_logs_aggrega.Models.{AlertRule, Time}
use distributed_logs_aggrega.Alert.Services.{Services, CompiledRule, Dispatcher}
use distributed_logs_aggrega.Alert.Rules.{rules_loaded, with_pattern, compile_rules, refresh_rules}

abbrev keep_if {ℓ} : {A : Type ℓ} → (A → Bool) → List A → List A
keep_if p [] = []
keep_if p (x ∷ xs) = if p x then x ∷ keep_if p xs else keep_if p xs

abbrev has_value {ℓ} : {A : Type ℓ} → Option A → Bool
has_value none = false
has_value (some a) = true

module _ (sv : Services) where
  open sv use {compile, Regexp}

  abbrev pub is_usable : AlertRule → Bool
  is_usable r = r.pattern == "" || has_value (compile r.pattern)

  -- A compiled rule carries the pattern that its text compiles to, and none for an empty text.
  abbrev pub IsCompiled : CompiledRule sv → Type 0
  IsCompiled cr = cr.pattern ≡ (if cr.rule.pattern == "" then none else compile cr.rule.pattern)

  pub record Compiles (rs : List AlertRule) (crs : List (CompiledRule sv)) : Type 0 where
    pub same : map (λ cr. cr.rule) crs ≡ keep_if is_usable rs
    pub compiled : All IsCompiled crs

  with_pattern-Compiles :
      (r : AlertRule) (rs : List AlertRule) (rest : List (CompiledRule sv)) (p : Option Regexp)
      → (r.pattern == "") ≡ false
      → compile r.pattern ≡ p
      → Compiles rs rest
      → Compiles (r ∷ rs) (with_pattern sv r p rest)
  unfolding with_pattern
  with_pattern-Compiles r rs rest none n e h = record {
    same = rw (n, e) h.same;
    compiled = h.compiled;
  }
  with_pattern-Compiles r rs rest (some re) n e h = record {
    same = rw (n, e) (ap (λ z. r ∷ z) h.same);
    compiled = (rw (n, e) refl, h.compiled);
  }

  compile_rules-Compiles : (rs : List AlertRule) → Compiles rs (compile_rules sv rs)
  unfolding compile_rules
  compile_rules-Compiles [] = record { same = refl; compiled = tt }
  compile_rules-Compiles (r ∷ rs) =
      let rest = compile_rules-Compiles rs in
      elim (Bool-cases (r.pattern == "")) [
        | inl e ↦ record {
          same = rw e (ap (λ z. r ∷ z) rest.same);
          compiled = rw e (rw e refl, rest.compiled);
        }
        | inr n ↦ rw n (with_pattern-Compiles r rs _ (compile r.pattern) n refl rest)
      ]

  -- After a refresh the dispatcher has the loaded rules whose pattern is empty or compiles, in their
  -- order, each with its own pattern.
  pub refresh_rules-Compiles :
      (now : Time) (rs : List AlertRule) (d : Dispatcher sv)
      → Compiles rs (refresh_rules sv now (rules_loaded rs) d).rules
  unfolding refresh_rules
  refresh_rules-Compiles now rs d = compile_rules-Compiles rs
