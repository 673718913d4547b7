-- ===== src/Ingestion/Dedup/Once.antt =====
-- The checks of one key within the window.
use distributed_logs_aggrega.Base.{
  ℕ, ◌+◌, ◌≤◌, ◌≡◌, ◌≢◌, String, true, false, some, List, [], ◌∷◌, All, arith, eq_iff,
}
use distributed_logs_aggrega.Base.GoMap.{
  lookup, delete_if, UniqueKeys, lookup-insert, lookup-delete_if, insert-UniqueKeys,
  delete_if-UniqueKeys,
}
use distributed_logs_aggrega.Ingestion.Dedup.{
  Dedup, is_stale, sweep, store_new, check_and_store_dedup,
}

lookup-sweep :
    (key : String) (now t : ℕ) (d : Dedup)
    → UniqueKeys d.dedupe
    → lookup key d.dedupe ≡ some t
    → now ≤ t + 300
    → lookup key (sweep now d).dedupe ≡ some t
unfolding sweep
lookup-sweep key now t d u h r = ground (arith, lookup-delete_if (is_stale now) key d.dedupe u)

-- Within 300 seconds a stored key stays as it is, whatever keys are checked.
pub remembered :
    (key other : String) (now t : ℕ) (d : Dedup)
    → UniqueKeys d.dedupe
    → lookup key d.dedupe ≡ some t
    → now ≤ t + 300
    → lookup key (check_and_store_dedup other now d).0.dedupe ≡ some t
unfolding check_and_store_dedup store_new
remembered key other now t d u h r = ground (
  arith,
  lookup-sweep key now t d u h r,
  eq_iff other key,
  lookup-insert other key now (sweep now d).dedupe,
)

pub refused :
    (key : String) (now t : ℕ) (d : Dedup)
    → key ≢ ""
    → UniqueKeys d.dedupe
    → lookup key d.dedupe ≡ some t
    → now ≤ t + 300
    → (check_and_store_dedup key now d).1 ≡ false
unfolding check_and_store_dedup store_new
refused key now t d ne u h r = ground (arith, lookup-sweep key now t d u h r, eq_iff key "")

pub check-UniqueKeys :
    (key : String) (now : ℕ) (d : Dedup)
    → UniqueKeys d.dedupe
    → UniqueKeys (check_and_store_dedup key now d).0.dedupe
unfolding check_and_store_dedup store_new sweep
check-UniqueKeys key now d u = ground (
  arith,
  delete_if-UniqueKeys (is_stale now) d.dedupe u,
  insert-UniqueKeys key now d.dedupe u,
  insert-UniqueKeys key now (delete_if (is_stale now) d.dedupe),
)

pub passed :
    (key : String) (now : ℕ) (d : Dedup)
    → key ≢ ""
    → (check_and_store_dedup key now d).1 ≡ true
    → lookup key (check_and_store_dedup key now d).0.dedupe ≡ some now
unfolding check_and_store_dedup store_new
passed key now d ne h =
    ground (arith, eq_iff key "", eq_iff key key, lookup-insert key key now (sweep now d).dedupe)

unfoldable pub run_checks : List (String × ℕ) → Dedup → Dedup
run_checks [] d = d
run_checks ((key, now) ∷ cs) d = run_checks cs (check_and_store_dedup key now d).0

stays_refused :
    (key : String) (t now : ℕ) (cs : List (String × ℕ)) (d : Dedup)
    → key ≢ ""
    → UniqueKeys d.dedupe
    → lookup key d.dedupe ≡ some t
    → All (λ c. c.1 ≤ t + 300) cs
    → now ≤ t + 300
    → (check_and_store_dedup key now (run_checks cs d)).1 ≡ false
unfolding run_checks
stays_refused key t now [] d ne u h a b = refused key now t d ne u h b
stays_refused key t now ((k, m) ∷ cs) d ne u h a b =
    stays_refused key t now cs (check_and_store_dedup k m d).0 ne (check-UniqueKeys k m d u)
      (remembered key k m t d u h a.0) a.1 b

-- Of the checks of one key that is not empty, at most one passes within 300 seconds, whatever other
-- keys are checked in between and in whatever order the clock reads.
pub passes_once :
    (key : String) (t now : ℕ) (cs : List (String × ℕ)) (d : Dedup)
    → key ≢ ""
    → UniqueKeys d.dedupe
    → (check_and_store_dedup key t d).1 ≡ true
    → All (λ c. c.1 ≤ t + 300) cs
    → now ≤ t + 300
    → (check_and_store_dedup key now (run_checks cs (check_and_store_dedup key t d).0)).1 ≡ false
passes_once key t now cs d ne u h a b =
    stays_refused key t now cs _ ne (check-UniqueKeys key t d u) (passed key t d ne h) a b
