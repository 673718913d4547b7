-- ===== src/Base/Channel.antt =====
-- Go's buffered channels. A channel of capacity 0 is always full here: a send that meets a waiting
-- receiver is not modelled.
use distributed_logs_aggrega.Base.{
  ℕ, Bool, true, false, List, [], ◌∷◌, ◌++◌, length, ltb, if◌then◌else◌, ◌≡◌, refl, arith,
}
use distributed_logs_aggrega.Base.Int.{ℤ, pos, negsuc}
use distributed_logs_aggrega.Base.Outcome.{Outcome, returns, panics}

-- Oldest first.
pub record Channel {ℓ} (A : Type ℓ) : Type ℓ where
  pub items : List A
  pub cap : ℕ
  pub closed : Bool

pub data Received {ℓ} (A : Type ℓ) : Type ℓ where
  blocks : Received A
  closes : Received A
  gets : A → Channel A → Received A

-- `make(chan A, n)`
unfoldable pub make_chan {ℓ} : {A : Type ℓ} → ℤ → Outcome (Channel A)
make_chan (pos n) = returns (record { items = []; cap = n; closed = false })
make_chan (negsuc n) = panics "makechan: size out of range"

module _ {ℓ} {A : Type ℓ} where
  -- `select { case ch <- a: … default: … }`, and whether the send went through
  unfoldable pub try_send : A → Channel A → Channel A × Outcome Bool
  try_send a ch =
      if ch.closed
      then (ch, panics "send on closed channel")
      else if ltb (length ch.items) ch.cap
      then (record ch { items = ch.items ++ a ∷ [] }, returns true)
      else (ch, returns false)

  unfoldable pub recv_from : List A → Channel A → Received A
  recv_from [] ch = if ch.closed then closes else blocks
  recv_from (a ∷ rest) ch = gets a (record ch { items = rest })

  -- `a, ok := <-ch`: a closed channel still gives what it holds
  unfoldable pub recv : Channel A → Received A
  recv ch = recv_from ch.items ch

  unfoldable pub close_chan : Channel A → Outcome (Channel A)
  close_chan ch =
      if ch.closed then panics "close of closed channel" else returns (record ch { closed = true })

  recv_from_gets :
      {a : A} (items : List A) (ch ch' : Channel A)
      → recv_from items ch ≡ gets a ch'
      → (items ≡ a ∷ ch'.items) × (ch'.cap ≡ ch.cap) × (ch'.closed ≡ ch.closed)
  unfolding recv_from
  recv_from_gets [] ch ch' h = ground arith
  recv_from_gets (x ∷ xs) ch ch' h = ground arith

  -- `recv` gives the oldest item.
  pub recv_gets :
      {a : A} (ch ch' : Channel A)
      → recv ch ≡ gets a ch'
      → (ch.items ≡ a ∷ ch'.items) × (ch'.cap ≡ ch.cap) × (ch'.closed ≡ ch.closed)
  unfolding recv
  recv_gets ch ch' h = recv_from_gets ch.items ch ch' h

  abbrev pub IsDry : Channel A → Type ℓ
  IsDry ch = (ch.closed ≡ true) × (ch.items ≡ [])

  recv_from_closes :
      (items : List A) (ch : Channel A)
      → recv_from items ch ≡ closes
      → (ch.closed ≡ true) × (items ≡ [])
  unfolding recv_from
  recv_from_closes [] ch h = ground arith
  recv_from_closes (x ∷ xs) ch h = cc

  -- The end of a channel is seen only when it is closed and empty.
  pub recv_closes : (ch : Channel A) → recv ch ≡ closes → IsDry ch
  unfolding recv
  recv_closes ch h = recv_from_closes ch.items ch h

  pub close_chan_lem :
      (ch ch' : Channel A)
      → close_chan ch ≡ returns ch'
      → (ch.closed ≡ false) × (ch' ≡ record ch { closed = true })
  unfolding close_chan
  close_chan_lem ch ch' h = ground arith

  pub recv_dry : (ch : Channel A) → IsDry ch → recv ch ≡ closes
  unfolding recv recv_from
  recv_dry ch (closed, items) = rw (items, recv_from) (rw closed)

  pub recv_next :
      (ch : Channel A) (x : A) (xs : List A)
      → ch.items ≡ x ∷ xs
      → recv ch ≡ gets x (record ch { items = xs })
  unfolding recv recv_from
  recv_next ch x xs e = rw (e, recv_from)

  -- An open channel with room takes what is sent.
  pub try_send_room :
      (a : A) (ch : Channel A)
      → ch.closed ≡ false
      → ltb (length ch.items) ch.cap ≡ true
      → try_send a ch ≡ (record ch { items = ch.items ++ a ∷ [] }, returns true)
  unfolding try_send
  try_send_room a ch o r = rw (o, r) refl
