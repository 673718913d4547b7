-- ===== src/Base/GoMap.antt =====
-- Go's `map[string]V` as an association list. `insert` overwrites in place, `delete_if` is a
-- `range` loop that deletes some of the entries it meets; no order of iteration is used.
use distributed_logs_aggrega.Base.{
  String, ◌≡◌, refl, Bool, Option, none, some, List, [], ◌∷◌, arith, ◌==◌, eq_iff, if◌then◌else◌,
}

abbrev pub GoMap {ℓ} : Type ℓ → Type ℓ
GoMap V = List (String × V)

module _ {ℓ} {V : Type ℓ} where
  unfoldable pub lookup : String → GoMap V → Option V
  lookup key [] = none
  lookup key (entry ∷ rest) = if entry.0 == key then some entry.1 else lookup key rest

  unfoldable pub insert : String → V → GoMap V → GoMap V
  insert key value [] = (key, value) ∷ []
  insert key value (entry ∷ rest) =
      if entry.0 == key then (key, value) ∷ rest else entry ∷ insert key value rest

  unfoldable pub delete_if : (V → Bool) → GoMap V → GoMap V
  delete_if p [] = []
  delete_if p ((j, v) ∷ m) = let rest = delete_if p m in if p v then rest else (j, v) ∷ rest

  -- An insertion is seen at its own key only.
  pub lookup-insert :
      (key other : String) (value : V) (old : GoMap V)
      → lookup other (insert key value old)
        ≡ (if key == other then some value else lookup other old)
  unfolding lookup insert
  lookup-insert key other value [] = refl
  lookup-insert key other value (entry ∷ rest) = ground (
    lookup-insert key other value rest,
    eq_iff entry.0 key,
    eq_iff entry.0 other,
    eq_iff key other,
    arith,
  )

  -- No key has two entries.
  abbrev pub UniqueKeys : GoMap V → Type ℓ
  UniqueKeys [] = Unit
  UniqueKeys ((k, v) ∷ m) = (lookup k m ≡ none) × UniqueKeys m

  pub insert-UniqueKeys :
      (k : String) (v : V) (m : GoMap V) → UniqueKeys m → UniqueKeys (insert k v m)
  unfolding lookup insert
  insert-UniqueKeys k v [] u = (refl, tt)
  insert-UniqueKeys k v ((j, w) ∷ m) u =
      ground (arith, eq_iff j k, eq_iff k j, lookup-insert k j v m, insert-UniqueKeys k v m u.1)

  abbrev pub unless : (V → Bool) → Option V → Option V
  unless p none = none
  unless p (some v) = if p v then none else some v

  pub lookup-delete_if :
      (p : V → Bool) (k : String) (m : GoMap V)
      → UniqueKeys m
      → lookup k (delete_if p m) ≡ unless p (lookup k m)
  unfolding lookup delete_if
  lookup-delete_if p k [] u = refl
  lookup-delete_if p k ((j, v) ∷ m) u = ground (arith, eq_iff j k, lookup-delete_if p k m u.1)

  pub delete_if-UniqueKeys :
      (p : V → Bool) (m : GoMap V) → UniqueKeys m → UniqueKeys (delete_if p m)
  unfolding lookup delete_if
  delete_if-UniqueKeys p [] u = tt
  delete_if-UniqueKeys p ((j, v) ∷ m) u =
      ground (arith, lookup-delete_if p j m u.1, delete_if-UniqueKeys p m u.1)
