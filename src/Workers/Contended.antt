-- ===== src/Workers/Contended.antt =====
-- lambda-extensions/workers/consumer.go: `DrainQueue` and `FlushDataQueue` while the handlers of
-- lambda-extensions/workers/producer.go send to the queue, with the handlers that wait for room.
pub mod Lines
pub mod PuttingBack
pub mod Draining
pub mod Quiet
pub mod QuietFlush
use sumologic_lambda_extensi.Base.{
  ℕ, zero, suc, ◌+◌, Option, none, some, List, [], ◌∷◌, ◌++◌, length, concat, ltb, if◌then◌else◌,
  Error,
}
use sumologic_lambda_extensi.Config.Defs.{LambdaExtensionConfig}
use sumologic_lambda_extensi.SumoClient.Services.{Bytes}
use sumologic_lambda_extensi.SumoClient.Enhance.{Outcome, done, panic}
use sumologic_lambda_extensi.Workers.Channel.{
  Run, returns, blocks, panics, diverges, Channel, push, send, close, receive_from, value, nothing,
  zero_value,
}
use sumologic_lambda_extensi.Workers.Sender.{LogSender}
use sumologic_lambda_extensi.Workers.Consumer.{◌>>=◌, runtime_done, max_calls}

-- The queue, and the messages whose handlers wait for room in it, in order.
pub record Line : Type 0 where
  pub channel : Channel Bytes
  pub waiting : List Bytes

abbrev pub pending : Line → List Bytes
pending l = l.channel.buffer ++ l.waiting

-- Handlers with these messages send as far as there is room, and then wait.
unfoldable pub fill : List Bytes → Channel Bytes → Line
fill [] q = record { channel = q; waiting = [] }
fill (m ∷ ms) q =
    let rest = fill ms (push q m) in
    if ltb (length q.buffer) q.capacity then rest else record { channel = q; waiting = m ∷ ms }

-- Messages come to the handlers behind those that wait. On a closed queue a handler panics, and the
-- server goes on without the message.
unfoldable pub arrive : List Bytes → Line → Line
arrive ms l = if l.channel.closed then l else fill (l.waiting ++ ms) l.channel

-- The receiving loop, for so many rounds; `none` means that it goes on. A receive from the buffer lets a
-- handler that waits send; with nothing in the buffer it takes the message of a handler that waits.
unfoldable pub receive_line : ℕ → Line → List Bytes → Option (List Bytes × Line)
receive_line zero l got = none
receive_line (suc fuel) l got = elim (receive_from l.channel.buffer l.channel) [
  | value m q ↦ receive_line fuel (fill l.waiting q) (got ++ m ∷ [])
  | nothing ↦ elim l.waiting [
    | [] ↦ some (got, l)
    | m ∷ ms ↦ receive_line fuel (record l { waiting = ms }) (got ++ m ∷ [])
  ]
  | zero_value ↦ receive_line fuel l (got ++ [] ∷ [])
]

abbrev pub first : List (List Bytes) → List Bytes
first [] = []
first (ms ∷ mss) = ms

abbrev pub later : List (List Bytes) → List (List Bytes)
later [] = []
later (ms ∷ mss) = mss

-- `for _, msg := range rawMsgArr { sc.dataQueue <- msg }`, with the messages that come before each send,
-- and those that come after the last.
unfoldable pub put_back_among : List Bytes → List (List Bytes) → Line → Run Line
put_back_among [] between l = returns (arrive (concat between) l)
put_back_among (m ∷ ms) between l = elim (send m (arrive (first between) l).channel) [
  | returns q ↦
      put_back_among ms (later between)
        (record { channel = q; waiting = (arrive (first between) l).waiting })
  | blocks ↦ blocks
  | panics ↦ panics
  | diverges ↦ diverges
]

-- What the handlers get while the consumer drains the queue once: until the receiving loop ends, during
-- the call of the sender, and from then on, before each send that puts a message back.
pub record Around : Type 0 where
  pub before : List Bytes
  pub during : List Bytes
  pub between : List (List Bytes)

abbrev pub comes : Around → List Bytes
comes a = a.before ++ (a.during ++ concat a.between)

-- How the loop ends: with rounds for all that is there, it goes on only if it never ends.
abbrev pub looped : Option (List Bytes × Line) → Run (List Bytes × Line)
looped none = diverges
looped (some r) = returns r

abbrev pub received_from : Line → Run (List Bytes × Line)
received_from l = looped (receive_line (suc (length (pending l))) l [])

abbrev pub received_among : Around → Line → Run (List Bytes × Line)
received_among a l = received_from (arrive a.before l)

module _ (L : LogSender) where
  -- The consumer with its line and its sender.
  pub record Worker : Type 0 where
    pub line : Line
    pub sender : L.State

  abbrev pub with_line : L.State → Line → Worker
  with_line t l = record { line = l; sender = t }

  -- The end of `DrainQueue`.
  abbrev pub after_send_among :
      Around → List Bytes → Line → Outcome (Option Error) × L.State → Run (ℕ × Worker)
  after_send_among a msgs l (panic, t) = panics
  after_send_among a msgs l (done none, t) =
      returns (runtime_done msgs, with_line t (arrive (concat a.between) (arrive a.during l)))
  after_send_among a msgs l (done (some e), t) = do
    l' ← put_back_among msgs a.between (arrive a.during l)
    returns (runtime_done msgs, with_line t l')

  -- `DrainQueue`
  unfoldable pub drain_among : Around → Worker → Run (ℕ × Worker)
  drain_among a w = do
    r ← received_among a w.line
    after_send_among a r.0 r.1 (L.send_all_logs r.0 w.sender)

  -- `close`: the handlers that wait panic.
  abbrev pub close_line : Line → Run Line
  close_line l = do q ← close l.channel; returns (record { channel = q; waiting = [] })

  abbrev pub after_flush_among :
      Around → List Bytes → Line → Outcome (Option Error) × L.State → Run Worker
  after_flush_among a msgs l (panic, t) = panics
  after_flush_among a msgs l (done none, t) = do
    l' ← close_line (arrive a.during l)
    returns (with_line t l')
  after_flush_among a msgs l (done (some e), t) = do
    l' ← put_back_among msgs a.between (arrive a.during l)
    l'' ← close_line l'
    returns (with_line t l'')

  -- The loop of `FlushDataQueue` that drains so many times.
  unfoldable pub drain_times_among : ℕ → (ℕ → Around) → Worker → Run Worker
  drain_times_among zero around w = returns w
  drain_times_among (suc n) around w = do
    r ← drain_among (around 0) w
    drain_times_among n (λ k. around (suc k)) r.1

  -- `FlushDataQueue`
  unfoldable pub flush_among : LambdaExtensionConfig → (ℕ → Around) → Worker → Run Worker
  flush_among cfg around w =
      if cfg.enable_failover
      then (do
        r ← received_among (around 0) w.line
        after_flush_among (around 0) r.0 r.1 (L.flush_all r.0 w.sender))
      else (do
        n ← max_calls (length w.line.channel.buffer) cfg.max_concurrent_requests
        drain_times_among n around w)
