-- ===== src/Examples/Queues.antt =====
-- The workers at concrete data.
use sumologic_lambda_extensi.Base.{
  ℕ, zero, suc, ◌≡◌, refl, ◌≢◌, ◌<◌, false, Option, none, some, List, [], ◌∷◌, Error, foreign,
  Result, ok, err, arith,
}
use sumologic_lambda_extensi.Base.Text.{codes}
use sumologic_lambda_extensi.SumoClient.Services.{Bytes}
use sumologic_lambda_extensi.SumoClient.Enhance.{Outcome, done}
use sumologic_lambda_extensi.Workers.Channel.{returns, Channel, OnReturn}
use sumologic_lambda_extensi.Workers.Sender.{LogSender}
use sumologic_lambda_extensi.Workers.Consumer.{
  ◌>>=◌, Consumer, drain_queue, drain_times, flush_data_queue,
}
use sumologic_lambda_extensi.Workers.Consumer.Draining.{
  IsOpen, settled, drain_queue-settled, flushed, flush_data_queue-flushed, Keeps,
  flush_data_queue-Keeps,
}
use sumologic_lambda_extensi.Workers.Consumer.Malformed.{sumo, Stays, drain_times-malformed}
use sumologic_lambda_extensi.SumoClient.Services.{Services, initial_state}
use sumologic_lambda_extensi.SumoClient.Codecs.{transform_bytes}
use sumologic_lambda_extensi.SumoClient.Send.{send_all_logs}
use sumologic_lambda_extensi.SumoClient.Send.Malformed.{malformed, send_all_logs-malformed}
use sumologic_lambda_extensi.Workers.ManagedConsumer.{managed_drain_queue}
use sumologic_lambda_extensi.Workers.ManagedConsumer.Settling.{managed_drain_queue-eq-drain_queue}
use sumologic_lambda_extensi.Workers.Producer.{Incoming}
use sumologic_lambda_extensi.Workers.ManagedProducer.{Event, Server, managed_logs_handler}
use sumologic_lambda_extensi.Workers.ManagedProducer.Handling.{
  IsRunning, Answered, managed_logs_handler-Answered,
}
use sumologic_lambda_extensi.Examples.Data.{services, settings, without_failover}

-- A sender that fails the first time and counts its calls.
abbrev pub second_call : ℕ → Outcome (Option Error) × ℕ
second_call zero = (done (some (foreign [])), 1)
second_call (suc n) = (done none, suc (suc n))

abbrev pub sender : LogSender
sender = record {
  State = ℕ;
  send_logs = λ b n. second_call n;
  send_all_logs = λ bs n. second_call n;
  flush_all = λ bs n. second_call n;
}

abbrev pub two_messages : Channel Bytes
two_messages = record { buffer = (1 ∷ []) ∷ (2 ∷ []) ∷ []; capacity = 2; closed = false }

abbrev consumer : Consumer sender
consumer = record { queue = two_messages; sender = 0 }

pub two_messages-IsOpen : IsOpen two_messages
two_messages-IsOpen = record { open' = refl; fits = omega arith }

drain_queue-settled_example :
    drain_queue sender consumer ≡ settled sender consumer (second_call zero)
drain_queue-settled_example = drain_queue-settled sender consumer two_messages-IsOpen

flush_data_queue-flushed_example :
    flush_data_queue sender settings consumer ≡ flushed sender consumer (second_call zero)
flush_data_queue-flushed_example =
    flush_data_queue-flushed sender settings consumer two_messages-IsOpen refl

flush_data_queue-Keeps_example :
    Keeps sender two_messages (flush_data_queue sender without_failover consumer)
flush_data_queue-Keeps_example =
    flush_data_queue-Keeps sender without_failover consumer two_messages-IsOpen refl

pub two_messages-some : two_messages.buffer ≢ []
two_messages-some e = cc

managed_drain_queue-eq-drain_queue_example :
    managed_drain_queue sender consumer ≡ (drain_queue sender consumer >>= λ r. returns (0, r.1))
managed_drain_queue-eq-drain_queue_example =
    managed_drain_queue-eq-drain_queue sender consumer two_messages-IsOpen two_messages-some

abbrev pub one_report : Bytes → Result (List Event)
one_report b = ok (record { time = []; type = codes "platform.report" } ∷ [])

-- A full data queue.
abbrev server : Server
server = record {
  data_queue = two_messages;
  flush_signal = record { buffer = []; capacity = 1; closed = false };
}

abbrev pub posted : Incoming
posted = record { path = "/"; method = "POST"; body = 7 ∷ []; read_error = none }

server-IsRunning : IsRunning one_report server
server-IsRunning = record {
  queue = record { open' = refl; fits = omega arith };
  signals = record { open' = refl; fits = omega arith };
  room = omega arith;
}

managed_logs_handler-Answered_example :
    OnReturn (Answered one_report posted server) (managed_logs_handler one_report posted server)
managed_logs_handler-Answered_example =
    managed_logs_handler-Answered one_report posted server server-IsRunning

-- The same services, but an empty message does not parse.
abbrev strict : Services
strict = record services {
  unmarshal_array = λ b. elim b [ [] ↦ err (foreign []) | c ∷ cs ↦ ok [] ];
}

abbrev one_malformed : List Bytes
one_malformed = (1 ∷ []) ∷ [] ∷ []

one_malformed-some : 0 < malformed strict settings one_malformed
unfolding malformed transform_bytes
one_malformed-some = omega arith

send_all_logs-malformed_example :
    (send_all_logs strict settings one_malformed (initial_state strict 0)).0 ≢ done none
send_all_logs-malformed_example =
    send_all_logs-malformed strict settings one_malformed (initial_state strict 0)
      one_malformed-some

abbrev strict_consumer : Consumer (sumo strict settings)
strict_consumer = record {
  queue = record two_messages { buffer = one_malformed };
  sender = initial_state strict 0;
}

strict_queue-IsOpen : IsOpen (record two_messages { buffer = one_malformed })
strict_queue-IsOpen = record { open' = refl; fits = omega arith }

drain_times-malformed_example :
    Stays strict settings
      (record two_messages { buffer = one_malformed })
      (drain_times (sumo strict settings) 5 strict_consumer)
drain_times-malformed_example =
    drain_times-malformed strict settings 5 strict_consumer strict_queue-IsOpen one_malformed-some
