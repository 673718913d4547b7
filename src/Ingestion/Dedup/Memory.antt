-- ===== src/Ingestion/Dedup/Memory.antt =====
-- The memory of internal/ingestion/pipeline.go for keys, with the order of its map forgotten.
use mathlib.Core.Path.{fun_ext}
use distributed_logs_aggrega.Base.{
  ℕ, ◌+◌, ◌≡◌, refl, ap, ◌∙◌, String, Bool, true, false, Option, none, some, ◌==◌, ltb,
  if◌then◌else◌, Bool-cases, inl, inr,
}
use distributed_logs_aggrega.Base.GoMap.{
  lookup, UniqueKeys, unless, lookup-insert, lookup-delete_if,
}
use distributed_logs_aggrega.Ingestion.Dedup.{
  Dedup, is_stale, sweep, store_new, check_and_store_dedup,
}

-- When each key was stored, if it is remembered, and when the memory was swept last.
pub record Memory : Type 0 where
  pub time_of : String → Option ℕ
  pub swept_at : ℕ

abbrev pub memory : Dedup → Memory
memory d = record { time_of = λ k. lookup k d.dedupe; swept_at = d.dedupe_at }

-- The same at all keys at once.
unfoldable pub forget : ℕ → Memory → Memory
forget now m =
    if ltb (m.swept_at + 60) now
    then record { time_of = λ k. unless (is_stale now) (m.time_of k); swept_at = now }
    else m

unfoldable pub learn : String → ℕ → Memory → Option ℕ → Memory × Bool
learn key now m (some t) = (m, false)
learn key now m none =
    (record m { time_of = λ k. if key == k then some now else m.time_of k }, true)

unfoldable pub check : String → ℕ → Memory → Memory × Bool
check key now m =
    if key == "" then (m, true) else let m' = forget now m in learn key now m' (m'.time_of key)

abbrev pub seen : Dedup × Bool → Memory × Bool
seen (d, fresh) = (memory d, fresh)

memory-sweep :
    (now : ℕ) (d : Dedup) → UniqueKeys d.dedupe → memory (sweep now d) ≡ forget now (memory d)
unfolding sweep forget
memory-sweep now d u = elim (Bool-cases (ltb (d.dedupe_at + 60) now)) [
  | inl due ↦ rw due (
      ap (λ (f : String → Option ℕ). record { time_of = f; swept_at = now })
        (fun_ext (λ k. lookup-delete_if (is_stale now) k d.dedupe u)))
  | inr fresh ↦ rw fresh refl
]

memory-store_new :
    (key : String) (now : ℕ) (d : Dedup) (o : Option ℕ)
    → seen (store_new key now d o) ≡ learn key now (memory d) o
unfolding store_new learn
memory-store_new key now d (some t) = refl
memory-store_new key now d none =
    ap (λ (f : String → Option ℕ). (record { time_of = f; swept_at = d.dedupe_at }, true))
      (fun_ext (λ k. lookup-insert key k now d.dedupe))

-- A check is what the abstract memory does.
pub memory-check :
    (key : String) (now : ℕ) (d : Dedup)
    → UniqueKeys d.dedupe
    → seen (check_and_store_dedup key now d) ≡ check key now (memory d)
unfolding check_and_store_dedup check
memory-check key now d u = elim (Bool-cases (key == "")) [
  | inl none_given ↦ rw none_given refl
  | inr given ↦ rw given (
      memory-store_new key now (sweep now d) (lookup key (sweep now d).dedupe)
      ∙ ap (λ (m : Memory). learn key now m (m.time_of key)) (memory-sweep now d u))
]
