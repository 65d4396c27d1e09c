-- ===== src/Workers/ManagedProducer.antt =====
-- lambda-extensions/workers/managed_instance_producer.go: the handler of the managed instance mode, which
-- never waits, and the signals that it sends to the consumer.
pub mod Signals
pub mod Handling
use sumologic_lambda_extensi.Base.{
  ℕ, ◌*◌, ◌/◌, Bool, true, false, not, Option, none, some, List, [], ◌∷◌, String, key_eq, leb,
  length, if◌then◌else◌, Error, Result, ok, err,
}
use sumologic_lambda_extensi.Base.Text.{Text, codes, text_eq}
use sumologic_lambda_extensi.SumoClient.Services.{Bytes}
use sumologic_lambda_extensi.Workers.Channel.{
  Run, returns, blocks, panics, diverges, Channel, try_send,
}
use sumologic_lambda_extensi.Workers.Consumer.{◌>>=◌}
use sumologic_lambda_extensi.Workers.Producer.{Incoming, status_ok, status_not_found}

-- The two fields of `Event` that the handler reads.
pub record Event : Type 0 where
  pub time : Text
  pub type : Text

-- The two channels of the server.
pub record Server : Type 0 where
  pub data_queue : Channel Bytes
  pub flush_signal : Channel String

-- `int(float64(cap) * 0.8)`: for a capacity below 2^51 the rounding does not reach the next integer.
abbrev pub threshold : ℕ → ℕ
threshold capacity = capacity * 4 / 5

-- A signal that finds the channel full is dropped.
unfoldable pub signal : String → Server → Run Server
signal name s = do r ← try_send name s.flush_signal; returns (record s { flush_signal = r.1 })

-- `checkQueueThreshold`
unfoldable pub check_queue_threshold : Server → Run Server
check_queue_threshold s =
    if leb (threshold s.data_queue.capacity) (length s.data_queue.buffer)
    then signal "queue_threshold" s
    else returns s

-- The loop over the events.
unfoldable pub signal_reports : List Event → Server → Run Server
signal_reports [] s = returns s
signal_reports (e ∷ es) s = do
  s' ← (if text_eq e.type (codes "platform.report") then signal "platform.report" s else returns s)
  signal_reports es s'

abbrev pub signal_events : Result (List Event) → Server → Run Server
signal_events (err e) s = returns s
signal_events (ok es) s = signal_reports es s

abbrev pub status_internal_server_error : ℕ
status_internal_server_error = 500

abbrev pub status_method_not_allowed : ℕ
status_method_not_allowed = 405

module _ (unmarshal_events : Bytes → Result (List Event)) where
  -- The handling of a body that was read: queue it or drop it, then the signals.
  unfoldable pub queue_body : Bytes → Server → Run (ℕ × Server)
  queue_body body s = do
    r ← try_send body s.data_queue
    s1 ← check_queue_threshold (record s { data_queue = r.1 })
    s2 ← signal_events (unmarshal_events body) s1
    returns (status_ok, s2)

  -- `logsHandler`
  unfoldable pub managed_logs_handler : Incoming → Server → Run (ℕ × Server)
  managed_logs_handler request s =
      if not (key_eq request.path "/")
      then returns (status_not_found, s)
      else if key_eq request.method "POST"
      then elim request.read_error [
        | some e ↦ returns (status_internal_server_error, s)
        | none ↦ queue_body request.body s
      ]
      else returns (status_method_not_allowed, s)
