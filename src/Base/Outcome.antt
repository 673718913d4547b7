-- ===== src/Base/Outcome.antt =====
-- How a Go call ends: it returns, or it panics.
use distributed_logs_aggrega.Base.{String}

pub data Outcome {ℓ} (A : Type ℓ) : Type ℓ where
  returns : A → Outcome A
  panics : String → Outcome A
