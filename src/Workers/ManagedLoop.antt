-- ===== src/Workers/ManagedLoop.antt =====
-- lambda-extensions/workers/managed_instance_consumer.go: `processFlushSignals`, the goroutine that
-- waits for signals, and its turns among the requests to the server of managed_instance_producer.go.
pub mod Serving
pub mod Waking
pub mod Together
use sumologic_lambda_extensi.Base.{
  Bool, Option, none, some, List, [], ◌∷◌, String, Error, Result, ok, err,
}
use sumologic_lambda_extensi.Config.Defs.{LambdaExtensionConfig}
use sumologic_lambda_extensi.SumoClient.Services.{Bytes}
use sumologic_lambda_extensi.Workers.Channel.{
  Run, returns, blocks, panics, diverges, Channel, Received, value, nothing, zero_value,
  receive_from,
}
use sumologic_lambda_extensi.Workers.Sender.{LogSender}
use sumologic_lambda_extensi.Workers.Consumer.{◌>>=◌, Consumer}
use sumologic_lambda_extensi.Workers.ManagedConsumer.{on_signal, managed_flush_data_queue}
use sumologic_lambda_extensi.Workers.Producer.{Incoming}
use sumologic_lambda_extensi.Workers.ManagedProducer.{Event, Server, managed_logs_handler}

-- The `case` that the `select` takes: `ctx.Done()`, or a signal.
pub data Case : Type 0 where
  cancelled signalled : Case

-- What happens in the process: a request to the server, or time for the goroutine, whose context is
-- `context.Background()` and never done.
pub data Action : Type 0 where
  request : Incoming → Action
  wake : Action

module _ (L : LogSender) where
  -- The two channels and the sender.
  pub record Managed : Type 0 where
    pub server : Server
    pub sender : L.State

  abbrev pub consumer_of : Managed → Consumer L
  consumer_of s = record { queue = s.server.data_queue; sender = s.sender }

  abbrev pub with_consumer : Managed → Consumer L → Managed
  with_consumer s c = record {
    server = record s.server { data_queue = c.queue };
    sender = c.sender;
  }

  -- The goroutine is at the `select` again, or has returned.
  pub data After : Type 0 where
    loops returned : Managed → After

  abbrev pub take_signal : Managed → Received String → Run After
  take_signal s (value name q) = do
    c ← on_signal L name (consumer_of s)
    returns (loops (with_consumer (record s { server = record s.server { flush_signal = q } }) c))
  take_signal s nothing = blocks
  take_signal s zero_value = do
    c ← on_signal L "" (consumer_of s)
    returns (loops (with_consumer s c))

  -- A turn of the loop of `processFlushSignals`.
  unfoldable pub flush_signals_turn : LambdaExtensionConfig → Case → Managed → Run After
  flush_signals_turn cfg cancelled s = do
    c ← managed_flush_data_queue L cfg (consumer_of s)
    returns (returned (with_consumer s c))
  flush_signals_turn cfg signalled s =
      take_signal s (receive_from s.server.flush_signal.buffer s.server.flush_signal)

  -- A goroutine that waits stays at the `select`.
  abbrev pub awake : Managed → Run After → Run Managed
  awake s (returns (loops t)) = returns t
  awake s (returns (returned t)) = returns t
  awake s blocks = returns s
  awake s panics = panics
  awake s diverges = diverges

  module _ (unmarshal_events : Bytes → Result (List Event)) (cfg : LambdaExtensionConfig) where
    unfoldable pub act : Action → Managed → Run Managed
    act (request r) s = do
      a ← managed_logs_handler unmarshal_events r s.server
      returns (record s { server = a.1 })
    act wake s = awake s (flush_signals_turn cfg signalled s)

    unfoldable pub act_all : List Action → Managed → Run Managed
    act_all [] s = returns s
    act_all (a ∷ as') s = do t ← act a s; act_all as' t
