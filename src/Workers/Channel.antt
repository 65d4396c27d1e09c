-- ===== src/Workers/Channel.antt =====
-- Go's buffered channels, as far as the workers use them: sends with and without a `default` case,
-- the loop that receives until its `default` case is taken, and `close`.
use sumologic_lambda_extensi.Base.{
  ℕ, zero, suc, Bool, true, false, Option, none, some, List, [], ◌∷◌, ◌++◌, length, ltb,
  if◌then◌else◌,
}

-- How a piece of a goroutine ends: it returns, waits for another goroutine, panics, or never ends.
pub data Run {ℓ} (A : Type ℓ) : Type ℓ where
  returns : A → Run A
  blocks panics diverges : Run A

pub record Channel {ℓ} (A : Type ℓ) : Type ℓ where
  pub buffer : List A
  pub capacity : ℕ
  pub closed : Bool

-- What `case a := <-c` finds: a value, nothing yet, or the zero value of a closed channel.
pub data Received (A : Type 0) : Type 0 where
  value : A → Channel A → Received A
  nothing : Received A
  zero_value : Received A

module _ {A : Type 0} where
  -- `make(chan A, capacity)`
  unfoldable pub make : ℕ → Channel A
  make capacity = record { buffer = []; capacity = capacity; closed = false }

  abbrev pub push : Channel A → A → Channel A
  push c a = record c { buffer = c.buffer ++ a ∷ [] }

  -- `c <- a`
  unfoldable pub send : A → Channel A → Run (Channel A)
  send a c =
      if c.closed
      then panics
      else if ltb (length c.buffer) c.capacity
      then returns (push c a)
      else blocks

  -- `select { case c <- a: … default: … }`: whether the send was made, and the channel.
  unfoldable pub try_send : A → Channel A → Run (Bool × Channel A)
  try_send a c =
      if c.closed
      then panics
      else if ltb (length c.buffer) c.capacity
      then returns (true, push c a)
      else returns (false, c)

  -- `close(c)`
  unfoldable pub close : Channel A → Run (Channel A)
  close c = if c.closed then panics else returns (record c { closed = true })

  abbrev pub receive_from : List A → Channel A → Received A
  receive_from [] c = if c.closed then zero_value else nothing
  receive_from (a ∷ rest) c = value a (record c { buffer = rest })

  -- `for { select { case a := <-c: got = append(got, a) default: … break } }`, for so many rounds:
  -- `none` means that it goes on. `nil` is the zero value.
  unfoldable pub receive_loop : ℕ → A → Channel A → List A → Option (List A × Channel A)
  receive_loop zero nil c got = none
  receive_loop (suc fuel) nil c got = elim (receive_from c.buffer c) [
    | value a c' ↦ receive_loop fuel nil c' (got ++ a ∷ [])
    | nothing ↦ some (got, c)
    | zero_value ↦ receive_loop fuel nil c (got ++ nil ∷ [])
  ]

  -- The loop with rounds for the whole buffer.
  unfoldable pub receive_all : A → Channel A → Option (List A × Channel A)
  receive_all nil c = receive_loop (suc (length c.buffer)) nil c []

  -- `for _, a := range values { c <- a }`
  unfoldable pub put_back : List A → Channel A → Run (Channel A)
  put_back [] c = returns c
  put_back (a ∷ rest) c = elim (send a c) [
    | returns c' ↦ put_back rest c'
    | blocks ↦ blocks
    | panics ↦ panics
    | diverges ↦ diverges
  ]

  -- The same with a `default` case, which drops the value.
  unfoldable pub try_put_back : List A → Channel A → Run (Channel A)
  try_put_back [] c = returns c
  try_put_back (a ∷ rest) c = elim (try_send a c) [
    | returns (sent, c') ↦ try_put_back rest c'
    | blocks ↦ blocks
    | panics ↦ panics
    | diverges ↦ diverges
  ]

-- A predicate on what a goroutine returns; it must return.
abbrev pub OnReturn : {A : Type 0} → (A → Type 0) → Run A → Type 0
OnReturn P (returns a) = P a
OnReturn P _ = ⊥
