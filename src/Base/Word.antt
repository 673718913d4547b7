-- ===== src/Base/Word.antt =====
-- sync/atomic.Int64 by its bit pattern: `Add` wraps around at 2 ^ 64.
use distributed_logs_aggrega.Base.{ℕ, ltb, if◌then◌else◌, ◌+◌, ◌-◌, ◌%◌, ◌^◌, ◌<◌, ◌≡◌, arith}
use distributed_logs_aggrega.Base.Int.{ℤ, pos, negsuc}

abbrev pub modulus : ℕ
modulus = 2 ^ 64

-- The two's complement pattern of an integer.
abbrev pub bits64 : ℤ → ℕ
bits64 (pos n) = n % modulus
bits64 (negsuc n) = modulus - 1 - n % modulus

-- The integer of an int64's bit pattern.
abbrev pub signed64 : ℕ → ℤ
signed64 n = if ltb n (2 ^ 63) then pos n else negsuc (modulus - 1 - n)

abbrev pub add64 : ℕ → ℤ → ℕ
add64 c d = (c + bits64 d) % modulus

pub add64-lt : (c : ℕ) (d : ℤ) → add64 c d < modulus
add64-lt c d = omega arith

-- Adding in two steps is adding once.
pub add64-add64 : (c a b : ℕ) → add64 (add64 c (pos a)) (pos b) ≡ add64 c (pos (a + b))
add64-add64 c a b = omega arith
