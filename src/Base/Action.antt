-- ===== src/Base/Action.antt =====
-- Go calls that act on something outside and may return an error: a state of type `W` is passed on,
-- after an error too, since what was done stays done.

pub data Result (E A : Type 0) : Type 0 where
  ok : A → Result E A
  err : E → Result E A

abbrev pub Action : Type 0 → Type 0 → Type 0 → Type 0
Action W E A = W → Result E A × W

module _ {W E : Type 0} where
  abbrev pub pure : {A : Type 0} → A → Action W E A
  pure a w = (ok a, w)

  abbrev pub raise : {A : Type 0} → E → Action W E A
  raise e w = (err e, w)

  -- `if err != nil { return … }` after a call that leaves `w`
  abbrev pub continue : {A B : Type 0} → (A → Action W E B) → Result E A → W → Result E B × W
  continue k (ok a) w = k a w
  continue k (err e) w = (err e, w)

  infixl 5 ◌>>=◌ ◌>>◌
  abbrev pub ◌>>=◌ : {A B : Type 0} → Action W E A → (A → Action W E B) → Action W E B
  (m >>= k) w = let (r, after) = m w in continue k r after

  abbrev pub ◌>>◌ : {A B : Type 0} → Action W E A → Action W E B → Action W E B
  m >> k = m >>= λ _. k
