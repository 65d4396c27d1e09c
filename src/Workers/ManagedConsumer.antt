-- ===== src/Workers/ManagedConsumer.antt =====
-- lambda-extensions/workers/managed_instance_consumer.go: the consumer of the managed instance mode, and
-- its goroutine that waits for signals.
pub mod Settling
use sumologic_lambda_extensi.Base.{
  ℕ, zero, suc, Bool, true, false, ◌||◌, Option, none, some, List, [], ◌∷◌, length, String, key_eq,
  if◌then◌else◌, Error,
}
use sumologic_lambda_extensi.Config.Defs.{LambdaExtensionConfig}
use sumologic_lambda_extensi.SumoClient.Services.{Bytes}
use sumologic_lambda_extensi.SumoClient.Enhance.{Outcome, done, panic}
use sumologic_lambda_extensi.SumoClient.Send.{is_nil}
use sumologic_lambda_extensi.Workers.Channel.{
  Run, returns, blocks, panics, diverges, Channel, Received, value, nothing, zero_value,
  receive_from, close, try_put_back,
}
use sumologic_lambda_extensi.Workers.Sender.{LogSender}
use sumologic_lambda_extensi.Workers.Consumer.{◌>>=◌, Consumer, with_queue, received, max_calls}

module _ (L : LogSender) where
  -- The end of `DrainQueue` with messages: on an error those are put back for which there is room.
  abbrev pub after_managed_send :
      List Bytes → Channel Bytes → Outcome (Option Error) × L.State → Run (ℕ × Consumer L)
  after_managed_send msgs q (panic, t) = panics
  after_managed_send msgs q (done none, t) = returns (0, with_queue L t q)
  after_managed_send msgs q (done (some e), t) = do
    q' ← try_put_back msgs q
    returns (0, with_queue L t q')

  -- `DrainQueue`; `runtime_done` stays 0.
  unfoldable pub managed_drain_queue : Consumer L → Run (ℕ × Consumer L)
  managed_drain_queue c = do
    r ← received L c
    (if is_nil r.0
        then returns (0, with_queue L c.sender r.1)
        else after_managed_send r.0 r.1 (L.send_all_logs r.0 c.sender))

  abbrev pub close_queue : L.State → Channel Bytes → Run (Consumer L)
  close_queue t q = do q' ← close q; returns (with_queue L t q')

  abbrev pub after_managed_flush :
      List Bytes → Channel Bytes → Outcome (Option Error) × L.State → Run (Consumer L)
  after_managed_flush msgs q (panic, t) = panics
  after_managed_flush msgs q (done none, t) = close_queue t q
  after_managed_flush msgs q (done (some e), t) = do q' ← try_put_back msgs q; close_queue t q'

  unfoldable pub managed_drain_times : ℕ → Consumer L → Run (Consumer L)
  managed_drain_times zero c = returns c
  managed_drain_times (suc n) c = do r ← managed_drain_queue c; managed_drain_times n r.1

  -- `FlushDataQueue`
  unfoldable pub managed_flush_data_queue : LambdaExtensionConfig → Consumer L → Run (Consumer L)
  managed_flush_data_queue cfg c =
      if cfg.enable_failover
      then (do
        r ← received L c
        (if is_nil r.0
            then close_queue c.sender r.1
            else after_managed_flush r.0 r.1 (L.flush_all r.0 c.sender)))
      else (do
        n ← max_calls (length c.queue.buffer) cfg.max_concurrent_requests
        managed_drain_times n c)

  -- The `switch` on a signal.
  unfoldable pub on_signal : String → Consumer L → Run (Consumer L)
  on_signal name c =
      if key_eq name "queue_threshold" || key_eq name "platform.report"
      then (do r ← managed_drain_queue c; returns r.1)
      else returns c
