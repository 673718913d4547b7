-- ===== src/Config/Port.antt =====
-- A port that is printed and read back: `%d` in the addresses of cmd/ingestor/main.go, and SERVER_PORT
-- in internal/config/config.go.
use Prim.Native.Char.{code}
use distributed_logs_aggrega.Base.{
  ℕ, zero, suc, ◌+◌, ◌*◌, ◌/◌, ◌%◌, ◌^◌, ◌<◌, ◌≡◌, ◌∙◌, refl, ap, none, some, String, false, ltb,
  eqb, arith, ◌==◌, eq_iff, Bool-cases, ltb→lt, ltb→ge, inl, inr,
}
use distributed_logs_aggrega.Base.Decimal.{digit, digits_before, decimal, decimal_ℤ}
use distributed_logs_aggrega.Base.Int.{ℤ, pos, negsuc}
use distributed_logs_aggrega.Config.{Config}
use distributed_logs_aggrega.Config.Atoi.{atoi, digits, unsigned, positive, negative}
use distributed_logs_aggrega.Config.Load.{override_port}

code-digit : (n : ℕ) → n < 10 → code (digit n) ≡ n + 48
code-digit zero h = refl
code-digit (suc zero) h = refl
code-digit (suc (suc zero)) h = refl
code-digit (suc (suc (suc zero))) h = refl
code-digit (suc (suc (suc (suc zero)))) h = refl
code-digit (suc (suc (suc (suc (suc zero))))) h = refl
code-digit (suc (suc (suc (suc (suc (suc zero)))))) h = refl
code-digit (suc (suc (suc (suc (suc (suc (suc zero))))))) h = refl
code-digit (suc (suc (suc (suc (suc (suc (suc (suc zero)))))))) h = refl
code-digit (suc (suc (suc (suc (suc (suc (suc (suc (suc zero))))))))) h = refl
code-digit (suc (suc (suc (suc (suc (suc (suc (suc (suc (suc n)))))))))) h = omega (arith, h)

digits-digit :
    (n acc : ℕ) (s : String)
    → n < 10
    → digits acc (String.◌∷◌ (digit n) s) ≡ digits (acc * 10 + n) s
unfolding digits
digits-digit n acc s h = ground (arith, code-digit n h)

digits-digits_before :
    (fuel n : ℕ) (s : String) → n < fuel → digits 0 (digits_before fuel n s) ≡ digits n s
unfolding digits_before
digits-digits_before zero n s h = ground (arith, h)
digits-digits_before (suc fuel) n s h = elim (Bool-cases (ltb n 10)) [
  | inl small ↦
      rw (small, digits_before)
        (digits-digit n 0 s (ltb→lt n 10 small) ∙ ap (λ k. digits k s) (omega arith))
  | inr large ↦
      rw (large, digits_before)
        (digits-digits_before fuel (n / 10) (String.◌∷◌ (digit (n % 10)) s)
            (omega (arith, ltb→ge n 10 large, h))
          ∙ digits-digit (n % 10) (n / 10) s (omega arith)
          ∙ ap (λ k. digits k s) (omega arith))
]

-- A decimal begins with a digit, which is no sign.
abbrev IsUnsigned : String → Type 0
IsUnsigned String.[] = ⊥
IsUnsigned (String.◌∷◌ c s) = (eqb (code c) b'-' ≡ false) × (eqb (code c) b'+' ≡ false)

digits_before-IsUnsigned :
    (fuel n : ℕ) (s : String) → n < fuel → IsUnsigned (digits_before fuel n s)
unfolding digits_before
digits_before-IsUnsigned zero n s h = absurd (omega (arith, h))
digits_before-IsUnsigned (suc fuel) n s h = elim (Bool-cases (ltb n 10)) [
  | inl small ↦ rw (small, digits_before) (ground (arith, small, code-digit n (ltb→lt n 10 small)))
  | inr large ↦
      rw (large, digits_before)
        (digits_before-IsUnsigned fuel (n / 10) (String.◌∷◌ (digit (n % 10)) s)
          (omega (arith, ltb→ge n 10 large, h)))
]

atoi-unsigned :
    (n : ℕ) (s : String) → IsUnsigned s → digits 0 s ≡ some n → n < 2 ^ 63 → atoi s ≡ some (pos n)
unfolding atoi unsigned positive
atoi-unsigned n String.[] u h b = absurd u
atoi-unsigned n (String.◌∷◌ c s) u h b = ground (arith, u.0, u.1, h, b)

negative-unsigned :
    (n : ℕ) (s : String)
    → IsUnsigned s
    → digits 0 s ≡ some (suc n)
    → n < 2 ^ 63
    → negative (unsigned s) ≡ some (negsuc n)
unfolding unsigned negative
negative-unsigned n String.[] u h b = absurd u
negative-unsigned n (String.◌∷◌ c s) u h b = rw h (ground (arith, b))

-- The range of an int64.
abbrev pub InRange : ℤ → Type 0
InRange (pos n) = n < 2 ^ 63
InRange (negsuc n) = n < 2 ^ 63

pub atoi-decimal_ℤ : (p : ℤ) → InRange p → atoi (decimal_ℤ p) ≡ some p
unfolding decimal_ℤ decimal digits atoi
atoi-decimal_ℤ (pos n) b =
    atoi-unsigned n (digits_before (suc n) n "")
      (digits_before-IsUnsigned (suc n) n "" (omega arith))
      (digits-digits_before (suc n) n "" (omega arith)) b
atoi-decimal_ℤ (negsuc n) b =
    negative-unsigned n (digits_before (suc (suc n)) (suc n) "")
      (digits_before-IsUnsigned (suc (suc n)) (suc n) "" (omega arith))
      (digits-digits_before (suc (suc n)) (suc n) "" (omega arith)) b

empty_text : atoi "" ≡ none
unfolding atoi
empty_text = refl

pub decimal_ℤ-ne_empty : (p : ℤ) → InRange p → decimal_ℤ p ≡ "" → ⊥
decimal_ℤ-ne_empty p b e = cc (atoi-decimal_ℤ p b, ap atoi e, empty_text)

-- A port in the range of an int64 that SERVER_PORT gives in decimal, as the addresses of the servers
-- print it, is the port that the configuration then has, and nothing else changes.
pub override_port-decimal :
    (p : ℤ) (cfg : Config)
    → InRange p
    → override_port (decimal_ℤ p) cfg ≡ record cfg { server = record (cfg.server) { port = p } }
unfolding override_port
override_port-decimal p cfg b = elim (Bool-cases (decimal_ℤ p == "")) [
  | inl e ↦ absurd (decimal_ℤ-ne_empty p b ((eq_iff (decimal_ℤ p) "").0 e))
  | inr e ↦ rw (e, atoi-decimal_ℤ p b) refl
]
