-- ===== src/Base/Decimal.antt =====
-- `%d` of Go's fmt: an int in decimal.
use Prim.Native.Char.{Char}
use distributed_logs_aggrega.Base.{ℕ, zero, suc, ◌/◌, ◌%◌, String, true, false, ltb}
use distributed_logs_aggrega.Base.Int.{ℤ, pos, negsuc}

abbrev pub digit : ℕ → Char
digit zero = "0"
digit (suc zero) = "1"
digit (suc (suc zero)) = "2"
digit (suc (suc (suc zero))) = "3"
digit (suc (suc (suc (suc zero)))) = "4"
digit (suc (suc (suc (suc (suc zero))))) = "5"
digit (suc (suc (suc (suc (suc (suc zero)))))) = "6"
digit (suc (suc (suc (suc (suc (suc (suc zero))))))) = "7"
digit (suc (suc (suc (suc (suc (suc (suc (suc zero)))))))) = "8"
digit _ = "9"

-- The digits of `n` before `s`. The first argument is fuel, of which more than `n` is enough.
unfoldable pub digits_before : ℕ → ℕ → String → String
digits_before zero n s = s
digits_before (suc fuel) n s = elim (ltb n 10) [
  | true ↦ String.◌∷◌ (digit n) s
  | false ↦ digits_before fuel (n / 10) (String.◌∷◌ (digit (n % 10)) s)
]

unfoldable pub decimal : ℕ → String
decimal n = digits_before (suc n) n ""

unfoldable pub decimal_ℤ : ℤ → String
decimal_ℤ (pos n) = decimal n
decimal_ℤ (negsuc n) = String.◌∷◌ "-" (decimal (suc n))
