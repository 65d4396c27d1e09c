-- ===== src/Workers/Consumer.antt =====
-- lambda-extensions/workers/consumer.go: the consumer of the standard mode.
pub mod Draining
pub mod Malformed
use sumologic_lambda_extensi.Base.{
  ℕ, zero, suc, ◌+◌, ◌-◌, ◌/◌, Bool, true, false, ◌||◌, Option, none, some, List, [], ◌∷◌, length,
  if◌then◌else◌, ℤ, pos, negsuc, Error, St,
}
use sumologic_lambda_extensi.Base.Text.{codes, contains}
use sumologic_lambda_extensi.Config.Defs.{LambdaExtensionConfig}
use sumologic_lambda_extensi.SumoClient.Services.{Bytes}
use sumologic_lambda_extensi.SumoClient.Enhance.{Outcome, done, panic}
use sumologic_lambda_extensi.Workers.Channel.{
  Run, returns, blocks, panics, diverges, Channel, send, close, receive_all, put_back,
}
use sumologic_lambda_extensi.Workers.Sender.{LogSender}

-- What follows a piece of the goroutine that returns.
infixl 5 ◌>>=◌
abbrev pub ◌>>=◌ {ℓ κ} : {A : Type ℓ} {B : Type κ} → Run A → (A → Run B) → Run B
returns a >>= f = f a
blocks >>= f = blocks
panics >>= f = panics
diverges >>= f = diverges

-- The consumer's queue, and its sender.
pub record Consumer (L : LogSender) : Type 0 where
  pub queue : Channel Bytes
  pub sender : L.State

-- Whether a message holds the text "platform.runtimeDone": the number that `DrainQueue` returns.
unfoldable pub runtime_done : List Bytes → ℕ
runtime_done [] = 0
runtime_done (m ∷ ms) = if contains m (codes "platform.runtimeDone") then 1 else runtime_done ms

-- `(len(queue) / MaxConcurrentRequests) + 1`, as the number of rounds that the loop makes. The
-- division by zero panics.
unfoldable pub max_calls : ℕ → ℤ → Run ℕ
max_calls n (pos zero) = panics
max_calls n (pos (suc m)) = returns (n / suc m + 1)
max_calls n (negsuc m) = returns (1 - n / suc m)

module _ (L : LogSender) where
  abbrev pub with_queue : L.State → Channel Bytes → Consumer L
  with_queue t q = record { queue = q; sender = t }

  -- The receiving loop, and what follows it.
  abbrev pub received : Consumer L → Run (List Bytes × Channel Bytes)
  received c = elim (receive_all [] c.queue) [ none ↦ diverges | some r ↦ returns r ]

  -- The end of `DrainQueue`: on an error the messages are put back.
  abbrev pub after_send :
      List Bytes → Channel Bytes → Outcome (Option Error) × L.State → Run (ℕ × Consumer L)
  after_send msgs q (panic, t) = panics
  after_send msgs q (done none, t) = returns (runtime_done msgs, with_queue t q)
  after_send msgs q (done (some e), t) = do
    q' ← put_back msgs q
    returns (runtime_done msgs, with_queue t q')

  -- `DrainQueue`
  unfoldable pub drain_queue : Consumer L → Run (ℕ × Consumer L)
  drain_queue c = do r ← received c; after_send r.0 r.1 (L.send_all_logs r.0 c.sender)

  abbrev pub after_flush :
      List Bytes → Channel Bytes → Outcome (Option Error) × L.State → Run (Consumer L)
  after_flush msgs q (panic, t) = panics
  after_flush msgs q (done none, t) = do q' ← close q; returns (with_queue t q')
  after_flush msgs q (done (some e), t) = do
    q' ← put_back msgs q
    q'' ← close q'
    returns (with_queue t q'')

  -- The loop `for i := 0; i < n; i++ { sc.DrainQueue(ctx) }`.
  unfoldable pub drain_times : ℕ → Consumer L → Run (Consumer L)
  drain_times zero c = returns c
  drain_times (suc n) c = do r ← drain_queue c; drain_times n r.1

  -- `FlushDataQueue`
  unfoldable pub flush_data_queue : LambdaExtensionConfig → Consumer L → Run (Consumer L)
  flush_data_queue cfg c =
      if cfg.enable_failover
      then (do r ← received c; after_flush r.0 r.1 (L.flush_all r.0 c.sender))
      else (do n ← max_calls (length c.queue.buffer) cfg.max_concurrent_requests; drain_times n c)

  abbrev pub after_send_logs :
      Bytes → Channel Bytes → Outcome (Option Error) × L.State → Run (Consumer L)
  after_send_logs raw q (panic, t) = panics
  after_send_logs raw q (done none, t) = returns (with_queue t q)
  after_send_logs raw q (done (some e), t) = do q' ← send raw q; returns (with_queue t q')

  -- `consumeTask`, without the wait group.
  unfoldable pub consume_task : Bytes → Consumer L → Run (Consumer L)
  consume_task raw c = after_send_logs raw c.queue (L.send_logs raw c.sender)
