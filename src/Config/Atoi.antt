-- ===== src/Config/Atoi.antt =====
-- strconv.Atoi, the part of Go's standard library by which config.go reads SERVER_PORT: an optional
-- sign, then decimal digits, within the range of int64. `none` is an error.
use Prim.Native.Char.{code}
use Prim.Native.String.{[], ◌∷◌}
use distributed_logs_aggrega.Base.{
  ℕ, ◌+◌, ◌-◌, ◌*◌, ◌^◌, String, Option, none, some, ◌&&◌, ltb, leb, eqb, if◌then◌else◌,
}
use distributed_logs_aggrega.Base.Int.{ℤ, pos, negsuc}

-- The digits of `s` after a prefix whose value is `acc`.
unfoldable pub digits : ℕ → String → Option ℕ
digits acc [] = some acc
digits acc (c ∷ s) =
    let d = code c in if leb b'0' d && leb d b'9' then digits (acc * 10 + (d - b'0')) s else none

unfoldable pub unsigned : String → Option ℕ
unfolding digits
unsigned [] = none
unsigned (c ∷ s) = digits 0 (c ∷ s)

unfoldable pub positive : Option ℕ → Option ℤ
positive none = none
positive (some n) = if ltb n (2 ^ 63) then some (pos n) else none

unfoldable pub negative : Option ℕ → Option ℤ
negative none = none
negative (some n) =
    if eqb n 0 then some (pos 0) else if leb n (2 ^ 63) then some (negsuc (n - 1)) else none

unfoldable pub atoi : String → Option ℤ
unfolding unsigned positive negative
atoi [] = none
atoi (c ∷ s) =
    if eqb (code c) b'-'
    then negative (unsigned s)
    else if eqb (code c) b'+'
    then positive (unsigned s)
    else positive (unsigned (c ∷ s))
