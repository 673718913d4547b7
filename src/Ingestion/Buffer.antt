-- ===== src/Ingestion/Buffer.antt =====
-- What internal/ingestion/pipeline.go promises: a buffer that delivers what it admits. The order of
-- events, the workers and their batches are forgotten: events are in bags.
use distributed_logs_aggrega.Base.{ℕ, ◌+◌, ◌≤◌, ◌<◌, ◌≡◌, Bool, List, [], ◌∷◌, ◌++◌, length, count}
use distributed_logs_aggrega.Models.{LogEvent}

-- A bag is how many of its events pass each test.
abbrev pub Bag : Type 0
Bag = (LogEvent → Bool) → ℕ

abbrev pub bag_of : List LogEvent → Bag
bag_of xs test = count test xs

infixl 65 ◌⊕◌
abbrev pub ◌⊕◌ : Bag → Bag → Bag
(a ⊕ b) test = a test + b test

pub record Buffer : Type 0 where
  pub waiting : Bag
  pub delivered : Bag

abbrev pub empty : Buffer
empty = record { waiting = λ test. 0; delivered = λ test. 0 }

-- A buffer with deliveries of at most `n` events admits the events that come, of which there is one,
-- or none comes and it delivers some or does nothing.
pub data Move (n : ℕ) (come : List LogEvent) (b c : Buffer) : Type 0 where
  idles : come ≡ [] → c ≡ b → Move n come b c
  admits :
      (ev : LogEvent)
      → come ≡ ev ∷ []
      → c ≡ record b { waiting = b.waiting ⊕ bag_of (ev ∷ []) }
      → Move n come b c
  delivers :
      (es : List LogEvent)
      → come ≡ []
      → 0 < length es
      → length es ≤ n
      → b.waiting ≡ c.waiting ⊕ bag_of es
      → c.delivered ≡ b.delivered ⊕ bag_of es
      → Move n come b c

-- Moves with all the events that come.
pub data Moves (n : ℕ) (b : Buffer) : List LogEvent → Buffer → Type 0 where
  none_yet : Moves n b [] b
  and_then :
      {c d : Buffer} {all come : List LogEvent}
      → Moves n b all c
      → Move n come c d
      → Moves n b (all ++ come) d
