-- ===== src/Cmd/Ingestor/Routes/First.antt =====
-- Deciding which route is the first that fits.
use text.Mathlib.Text.{starts_with}
use text.Mathlib.TextEquality.{starts_with_iff}
use distributed_logs_aggrega.Base.{
  String, ◌≡◌, refl, sym, inl, inr, true, false, ◌&&◌, ◌||◌, Bool, none, some, Option, List, [],
  ◌∷◌, ◌==◌, eq_iff, Bool-cases, if◌then◌else◌, arith, ◌↔◌,
}
use distributed_logs_aggrega.Cmd.Ingestor.Routes.{
  Endpoint, Pattern, exact, prefix, Route, Fits, FirstFits, found, skipped, OneOf, MethodFits,
  PathFits,
}

abbrev one_of : String → List String → Bool
one_of m [] = false
one_of m (x ∷ xs) = m == x || one_of m xs

abbrev path_fits : Pattern → String → Bool
path_fits (exact q) path = path == q
path_fits (prefix q) path = starts_with path q

abbrev method_fits : List String → String → Bool
method_fits [] m = true
method_fits (x ∷ xs) m = one_of m (x ∷ xs)

abbrev route_fits : Route → String → String → Bool
route_fits r method path = path_fits r.pattern path && method_fits r.methods method

-- Where the first route that fits leads.
abbrev pub first_endpoint : List Route → String → String → Option Endpoint
first_endpoint [] method path = none
first_endpoint (r ∷ rs) method path =
    if route_fits r method path then some r.endpoint else first_endpoint rs method path

one_of_iff : (m : String) (xs : List String) → (one_of m xs ≡ true) ↔ OneOf m xs
one_of_iff m [] = ((λ h. cc), (λ h. absurd h))
one_of_iff m (x ∷ xs) = elim (Bool-cases (m == x)) [
  | inl same ↦ ((λ h. inl ((eq_iff m x).0 same)), (λ h. rw same refl))
  | inr other ↦ (
    (λ h. inr ((one_of_iff m xs).0 (rw other at h))),
    (λ h. elim h [
      | inl e ↦ cc (other, (eq_iff m x).1 e)
      | inr later ↦ rw other ((one_of_iff m xs).1 later)
    ]),
  )
]

path_fits_iff : (q : Pattern) (path : String) → (path_fits q path ≡ true) ↔ PathFits q path
path_fits_iff (exact q) path = eq_iff path q
path_fits_iff (prefix q) path = starts_with_iff path q

method_fits_iff : (ms : List String) (m : String) → (method_fits ms m ≡ true) ↔ MethodFits ms m
method_fits_iff [] m = ((λ h. tt), (λ h. refl))
method_fits_iff (x ∷ xs) m = one_of_iff m (x ∷ xs)

and_iff : (a b : Bool) → ((a && b) ≡ true) ↔ ((a ≡ true) × (b ≡ true))
and_iff a b = ground arith

route_fits_iff :
    (r : Route) (method path : String) → (route_fits r method path ≡ true) ↔ Fits r method path
route_fits_iff r method path =
    let (to_path, of_path) = path_fits_iff r.pattern path in
    let (to_method, of_method) = method_fits_iff r.methods method in
    let (to_both, of_both) = and_iff (path_fits r.pattern path) (method_fits r.methods method) in
    (
      (λ h. record { on_path = to_path (to_both h).0; on_method = to_method (to_both h).1 }),
      (λ f. of_both (of_path f.on_path, of_method f.on_method)),
    )

some_inj : {a b : Endpoint} → some a ≡ some b → a ≡ b
some_inj h = cc

-- The test finds the route that is meant.
pub first_endpoint-FirstFits :
    (rs : List Route) (method path : String) (e : Endpoint)
    → first_endpoint rs method path ≡ some e
    → FirstFits method path rs e
first_endpoint-FirstFits [] method path e h = cc
first_endpoint-FirstFits (r ∷ rs) method path e h = elim (Bool-cases (route_fits r method path)) [
  | inl fits ↦ found ((route_fits_iff r method path).0 fits) (sym (some_inj (rw fits at h)))
  | inr misses ↦
      skipped (λ f. cc (misses, (route_fits_iff r method path).1 f))
        (first_endpoint-FirstFits rs method path e (rw misses at h))
]

pub FirstFits-first_endpoint :
    (rs : List Route) (method path : String) (e : Endpoint)
    → FirstFits method path rs e
    → first_endpoint rs method path ≡ some e
FirstFits-first_endpoint [] method path e f = elim f [ ]
FirstFits-first_endpoint (r ∷ rs) method path e (found fits leads) =
    rw ((route_fits_iff r method path).1 fits, leads) refl
FirstFits-first_endpoint (r ∷ rs) method path e (skipped misses later) =
    elim (Bool-cases (route_fits r method path)) [
      | inl fits ↦ absurd (misses ((route_fits_iff r method path).0 fits))
      | inr other ↦ rw other (FirstFits-first_endpoint rs method path e later)
    ]
