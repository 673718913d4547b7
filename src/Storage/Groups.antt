-- ===== src/Storage/Groups.antt =====
-- The groups with which the store answers an aggregation, and how many of their events are errors.
use distributed_logs_aggrega.Base.{
  ℕ, ◌+◌, ◌^◌, String, ◌≡◌, ap, sym, subst, ◌∙◌, Option, none, some, [], ◌∷◌, ◌==◌, eq_iff, ltb,
  arith, if◌then◌else◌, Bool-cases, inl, inr,
}
use distributed_logs_aggrega.Base.Int.{ℤ, pos}
use distributed_logs_aggrega.Base.GoMap.{GoMap, lookup, UniqueKeys}
use distributed_logs_aggrega.Models.{level_error, level_fatal}
use distributed_logs_aggrega.Storage.Documents.{
  Bson, int32, int64, text, array, document, Items, nil, cons, Fields, end, field, to_int64,
}
use distributed_logs_aggrega.Storage.Aggregate.{is_error_level}

-- A number that the server has counted, as `$sum: 1` and `$count` answer with it: a 32-bit integer,
-- or a 64-bit one where it does not fit.
unfoldable pub number : (D : Type 0) → ℕ → Bson D
number D n = if ltb n (2 ^ 31) then int32 (pos n) else int64 (pos n)

-- The groups as the server answers with them: a document of the level and the number for each.
abbrev pub group_items : (D : Type 0) → GoMap ℕ → Items D
group_items D [] = nil
group_items D ((key, n) ∷ gs) =
    cons (document (field "_id" (text key) (field "n" (number D n) end))) (group_items D gs)

-- `$count` answers with no document for no events.
abbrev pub count_items : (D : Type 0) → ℕ → Items D
count_items D total =
    if ltb 0 total then cons (document (field "n" (number D total) end)) nil else nil

-- The one document of `$facet`.
abbrev pub facets : (D : Type 0) → ℕ → GoMap ℕ → GoMap ℕ → Fields D
facets D total levels services = field "total" (array (count_items D total)) (
    field "by_level" (array (group_items D levels))
      (field "by_service" (array (group_items D services)) end))

abbrev pub or_zero : Option ℕ → ℕ
or_zero none = 0
or_zero (some n) = n

-- The number of events of a group.
abbrev pub number_of : String → GoMap ℕ → ℕ
number_of key gs = or_zero (lookup key gs)

abbrev pub pos_or : Option ℕ → Option ℤ → Option ℤ
pos_or none o = o
pos_or (some n) o = some (pos n)

-- What the groups add to the errors.
abbrev pub weight : GoMap ℕ → ℕ
weight [] = 0
weight ((lvl, n) ∷ gs) = if is_error_level lvl then n + weight gs else weight gs

error_first :
    (n : ℕ) (gs : GoMap ℕ)
    → lookup level_error gs ≡ none
    → n + (number_of level_error gs + number_of level_fatal gs)
      ≡ number_of level_error ((level_error, n) ∷ gs)
        + number_of level_fatal ((level_error, n) ∷ gs)
unfolding lookup
error_first n gs h = rw h (omega arith)

fatal_first :
    (n : ℕ) (gs : GoMap ℕ)
    → lookup level_fatal gs ≡ none
    → n + (number_of level_error gs + number_of level_fatal gs)
      ≡ number_of level_error ((level_fatal, n) ∷ gs)
        + number_of level_fatal ((level_fatal, n) ∷ gs)
unfolding lookup
fatal_first n gs h = rw h (omega arith)

abbrev Adds : ℕ → GoMap ℕ → String → Type 0
Adds n gs lvl =
    weight ((lvl, n) ∷ gs)
    ≡ number_of level_error ((lvl, n) ∷ gs) + number_of level_fatal ((lvl, n) ∷ gs)

pub weight_lem :
    (gs : GoMap ℕ) → UniqueKeys gs → weight gs ≡ number_of level_error gs + number_of level_fatal gs
unfolding lookup
weight_lem [] u = omega arith
weight_lem ((lvl, n) ∷ gs) (new, u) = elim (Bool-cases (lvl == level_error)) [
  | inl e ↦
      let same = (eq_iff lvl level_error).0 e in
      subst (Adds n gs) (sym same) (
        ap (λ w. n + w) (weight_lem gs u)
        ∙ error_first n gs (subst (λ l. lookup l gs ≡ none) same new))
  | inr e ↦ elim (Bool-cases (lvl == level_fatal)) [
    | inl f ↦
        let same = (eq_iff lvl level_fatal).0 f in
        subst (Adds n gs) (sym same) (
          ap (λ w. n + w) (weight_lem gs u)
          ∙ fatal_first n gs (subst (λ l. lookup l gs ≡ none) same new))
    | inr f ↦ rw (e, f) (weight_lem gs u)
  ]
]

pub to_int64-number :
    {D : Type 0} (truncate : D → ℤ) (n : ℕ) → to_int64 D truncate (number D n) ≡ pos n
unfolding to_int64 number
to_int64-number truncate n = ground arith
