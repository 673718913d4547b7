-- ===== src/Cmd/Loadgen/Events.antt =====
-- What the load generator sends.
use Prim.Native.String
use text.Mathlib.TextPositions.{len-append}
use distributed_logs_aggrega.Base.{
  ℕ, zero, suc, ◌<◌, ◌≡◌, refl, arith, String, true, false, none, List, [], ◌∷◌, length, All, ◌==◌,
  ap, eq_iff, Bool-cases, inl, inr,
}
use distributed_logs_aggrega.Base.Decimal.{decimal}
use distributed_logs_aggrega.Models.{Time, valid, validate}
use distributed_logs_aggrega.Cmd.Loadgen.{Draw, services, levels, messages, at, random_event}
use distributed_logs_aggrega.Cmd.Loadgen.Run.{InRange}

at-All : (P : String → Type 0) (xs : List String) (i : ℕ) → All P xs → i < length xs → P (at xs i)
at-All P [] i h b = absurd (omega (arith, b))
at-All P (x ∷ xs) zero h b = h.0
at-All P (x ∷ xs) (suc i) h b = at-All P xs i h.1 (omega (arith, b))

abbrev NotEmpty : String → Type 0
NotEmpty s = (s == "") ≡ false

services-NotEmpty : All NotEmpty services
services-NotEmpty = (refl, (refl, (refl, (refl, (refl, (refl, (refl, (refl, tt))))))))

messages-NotEmpty : All NotEmpty messages
messages-NotEmpty =
    (refl, (refl, (refl, (refl, (refl, (refl, (refl, (refl, (refl, (refl, tt))))))))))

levels-valid : All (λ l. valid l ≡ true) levels
unfolding valid
levels-valid = (refl, (refl, (refl, (refl, (refl, (refl, (refl, tt)))))))

pod-NotEmpty : (n : ℕ) → NotEmpty (String.◌++◌ "pod-" (decimal n))
pod-NotEmpty n = elim (Bool-cases (String.◌++◌ "pod-" (decimal n) == "")) [
  | inl e ↦ absurd (
      omega (
        arith,
        len-append "pod-" (decimal n),
        ap String.len ((eq_iff (String.◌++◌ "pod-" (decimal n)) "").0 e),
      ))
  | inr e ↦ e
]

-- Whatever is drawn, the event passes validation, and is sent as it is: the server stores it with the
-- time at which it was made.
pub random_event-validate :
    (now : Time) (d : Draw) → InRange d → validate now (random_event d) ≡ (random_event d, none)
unfolding validate random_event
random_event-validate now d r =
    rw
      (
        at-All NotEmpty services d.service services-NotEmpty r.service,
        pod-NotEmpty d.pod,
        at-All NotEmpty messages d.message messages-NotEmpty r.message,
        at-All (λ l. valid l ≡ true) levels d.level levels-valid r.level,
        r.past_zero,
      )
      refl
