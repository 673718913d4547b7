-- ===== src/Ingestion/Dedup/Window.antt =====
-- How long a key is remembered.
use distributed_logs_aggrega.Base.{
  ℕ, ◌+◌, ◌≤◌, ◌≡◌, ◌≢◌, String, false, Option, none, some, List, [], ◌∷◌, All, arith, ◌==◌, eq_iff,
  Option-cases, Bool-cases, inl, inr,
}
use distributed_logs_aggrega.Base.GoMap.{
  GoMap, lookup, insert, delete_if, UniqueKeys, lookup-delete_if, insert-UniqueKeys,
  delete_if-UniqueKeys,
}
use distributed_logs_aggrega.Ingestion.Dedup.Once.{run_checks}
use distributed_logs_aggrega.Ingestion.Dedup.{
  Dedup, empty, is_stale, sweep, store_new, check_and_store_dedup,
}

-- The times of `m` lie between two bounds, as far as 300 seconds from the lower one.
abbrev Within : ℕ → ℕ → GoMap ℕ → Type 0
Within lo hi = All (λ e. (lo ≤ e.1 + 300) × (e.1 ≤ hi))

-- What every check keeps, `last` being the time of the latest one.
pub record IsFresh (last : ℕ) (d : Dedup) : Type 0 where
  pub unique : UniqueKeys d.dedupe
  pub within : Within d.dedupe_at last d.dedupe
  pub past : d.dedupe_at ≤ last

Within-mono : (lo hi hi' : ℕ) (m : GoMap ℕ) → hi ≤ hi' → Within lo hi m → Within lo hi' m
Within-mono lo hi hi' [] b h = tt
Within-mono lo hi hi' ((j, t) ∷ m) b h = ground (arith, Within-mono lo hi hi' m b h.1)

insert-Within :
    (lo hi now : ℕ) (k : String) (m : GoMap ℕ)
    → lo ≤ now
    → hi ≤ now
    → Within lo hi m
    → Within lo now (insert k now m)
unfolding insert
insert-Within lo hi now k [] a b h = omega arith
insert-Within lo hi now k ((j, t) ∷ m) a b h =
    ground (arith, Within-mono lo hi now m b h.1, insert-Within lo hi now k m a b h.1)

delete_if-Within :
    (lo hi now : ℕ) (m : GoMap ℕ)
    → hi ≤ now
    → Within lo hi m
    → Within now now (delete_if (is_stale now) m)
unfolding delete_if
delete_if-Within lo hi now [] b h = tt
delete_if-Within lo hi now ((j, t) ∷ m) b h = ground (arith, delete_if-Within lo hi now m b h.1)

lookup-Within :
    (lo hi : ℕ) (k : String) (m : GoMap ℕ) (t : ℕ)
    → Within lo hi m
    → lookup k m ≡ some t
    → (lo ≤ t + 300) × (t ≤ hi)
unfolding lookup
lookup-Within lo hi k [] t h e = cc
lookup-Within lo hi k ((j, u) ∷ m) t h e = ground (arith, lookup-Within lo hi k m t h.1)

sweep-IsFresh : (last now : ℕ) (d : Dedup) → last ≤ now → IsFresh last d → IsFresh now (sweep now d)
unfolding sweep
sweep-IsFresh last now d b f = ground (
  arith,
  delete_if-UniqueKeys (is_stale now) d.dedupe f.unique,
  delete_if-Within d.dedupe_at last now d.dedupe b f.within,
  Within-mono d.dedupe_at last now d.dedupe b f.within,
)

store_new-IsFresh :
    (key : String) (now : ℕ) (d : Dedup) (o : Option ℕ)
    → IsFresh now d
    → IsFresh now (store_new key now d o).0
unfolding store_new
store_new-IsFresh key now d (some t) f = f
store_new-IsFresh key now d none f = record {
  unique = insert-UniqueKeys key now d.dedupe f.unique;
  within = insert-Within d.dedupe_at now now key d.dedupe f.past (omega arith) f.within;
  past = f.past;
}

-- Each check keeps one entry for each key, none of which lies more than 300 seconds before the
-- latest sweep, if the clock does not go back.
pub check-IsFresh :
    (key : String) (last now : ℕ) (d : Dedup)
    → last ≤ now
    → IsFresh last d
    → IsFresh now (check_and_store_dedup key now d).0
unfolding check_and_store_dedup
check-IsFresh key last now d b f = elim (Bool-cases (key == "")) [
  | inl e ↦
      rw (e, check_and_store_dedup)
        (record {
          unique = f.unique;
          within = Within-mono d.dedupe_at last now d.dedupe b f.within;
          past = omega arith;
        })
  | inr e ↦
      rw (e, check_and_store_dedup)
        (store_new-IsFresh key now (sweep now d) (lookup key (sweep now d).dedupe)
          (sweep-IsFresh last now d b f))
]

-- A key that a check calls a duplicate was stored at most 360 seconds before, if the clock does not
-- go back: 300 seconds, and 60 until the next sweep.
pub duplicate_recent :
    (key : String) (last now : ℕ) (d : Dedup)
    → last ≤ now
    → IsFresh last d
    → (check_and_store_dedup key now d).1 ≡ false
    → (t : ℕ) × (lookup key d.dedupe ≡ some t) × (now ≤ t + 360)
unfolding check_and_store_dedup store_new sweep
duplicate_recent key last now d b f h = elim (Option-cases (lookup key d.dedupe)) [
  | inl e ↦ ground (arith, lookup-delete_if (is_stale now) key d.dedupe f.unique)
  | inr (t, e) ↦ (
    t,
    e,
    ground (
      arith,
      lookup-delete_if (is_stale now) key d.dedupe f.unique,
      lookup-Within d.dedupe_at last key d.dedupe t f.within,
    ),
  )
]

All-recent :
    (lo hi now : ℕ) (m : GoMap ℕ) → now ≤ lo + 60 → Within lo hi m → All (λ e. now ≤ e.1 + 360) m
All-recent lo hi now [] b h = tt
All-recent lo hi now ((j, t) ∷ m) b h = (omega arith, All-recent lo hi now m b h.1)

swept_recently :
    (key : String) (now : ℕ) (d : Dedup)
    → key ≢ ""
    → now ≤ (check_and_store_dedup key now d).0.dedupe_at + 60
unfolding check_and_store_dedup store_new sweep
swept_recently key now d ne = ground (arith, eq_iff key "")

-- After a check of a key that is not empty no entry is older than 360 seconds, if the clock does
-- not go back.
pub memory_bounded :
    (key : String) (last now : ℕ) (d : Dedup)
    → key ≢ ""
    → last ≤ now
    → IsFresh last d
    → All (λ e. now ≤ e.1 + 360) (check_and_store_dedup key now d).0.dedupe
memory_bounded key last now d ne b f =
    All-recent _ now now _ (swept_recently key now d ne) (check-IsFresh key last now d b f).within

-- The times of the checks do not go back, from `last` on.
abbrev pub Ordered : ℕ → List (String × ℕ) → Type 0
Ordered last [] = Unit
Ordered last ((key, now) ∷ cs) = (last ≤ now) × Ordered now cs

abbrev pub latest : ℕ → List (String × ℕ) → ℕ
latest last [] = last
latest last ((key, now) ∷ cs) = latest now cs

-- Whatever keys are checked at times that do not go back, the memory has one entry for each key, none
-- of which lies more than 300 seconds before the latest sweep or after the last check.
pub run_checks-IsFresh :
    (last : ℕ) (cs : List (String × ℕ)) (d : Dedup)
    → Ordered last cs
    → IsFresh last d
    → IsFresh (latest last cs) (run_checks cs d)
unfolding run_checks
run_checks-IsFresh last [] d o f = f
run_checks-IsFresh last ((key, now) ∷ cs) d o f =
    run_checks-IsFresh now cs _ o.1 (check-IsFresh key last now d o.0 f)

pub empty-IsFresh : IsFresh 0 empty
empty-IsFresh = record { unique = tt; within = tt; past = omega arith }
