-- ===== src/Examples/Interleaved.antt =====
-- The goroutines of both modes at concrete data.
use sumologic_lambda_extensi.Base.{zero, ◌≡◌, refl, false, none, [], ◌∷◌, ◌++◌, foreign, arith}
use sumologic_lambda_extensi.Base.Text.{contains}
use sumologic_lambda_extensi.SumoClient.Services.{Bytes}
use sumologic_lambda_extensi.Workers.Channel.{
  returns, Channel, make, send, OnReturn, receive_loop, receive_all, put_back,
}
use sumologic_lambda_extensi.SumoClient.Enhance.{done}
use sumologic_lambda_extensi.Workers.Sender.{LogSender}
use sumologic_lambda_extensi.Workers.Consumer.{runtime_done, drain_queue}
use sumologic_lambda_extensi.Workers.Interleaving.{
  standard, managed, idle, receiving, System, arrive, begin, Reach, here, next, quiet,
}
use sumologic_lambda_extensi.Workers.Interleaving.Conservation.{Conserved, Reach-Conserved}
use sumologic_lambda_extensi.Workers.Interleaving.Runs.{Leads, appended}
use sumologic_lambda_extensi.Workers.Interleaving.Deadlock.{Deadlocks, deadlock_reachable}
use sumologic_lambda_extensi.Workers.Interleaving.Atomic.{drain-Leads, consumer_of}
use sumologic_lambda_extensi.Workers.Interleaving.Progress.{Settles, drain-Settles}
use sumologic_lambda_extensi.Workers.ManagedLoop.{Managed, request, wake, act, act_all}
use sumologic_lambda_extensi.Workers.ManagedLoop.Waking.{
  woken, wake-woken, wakes, wakes-lost, signals_left,
}
use sumologic_lambda_extensi.Workers.ManagedLoop.Together.{
  IsServed, act_all-IsServed, IsLow, act_all-IsLow,
}
use sumologic_lambda_extensi.Examples.Data.{settings}
use sumologic_lambda_extensi.Examples.Queues.{
  sender, second_call, two_messages, two_messages-IsOpen, two_messages-some, one_report, posted,
}

-- A sender that always succeeds.
abbrev taker : LogSender
taker = record {
  State = Unit;
  send_logs = λ b s. (done none, s);
  send_all_logs = λ bs s. (done none, s);
  flush_all = λ bs s. (done none, s);
}

abbrev empty_queue : Channel Bytes
empty_queue = record { buffer = []; capacity = 1; closed = false }

abbrev message : Bytes
message = 5 ∷ []

-- The consumer starts with two messages in the queue, and a third one arrives.
abbrev at_work : System sender
at_work = record (quiet sender two_messages 0) {
  phase = receiving [];
  handlers = message ∷ [];
  arrived = two_messages.buffer ++ message ∷ [];
}

at_work-Reach : Reach sender standard (quiet sender two_messages 0) at_work
at_work-Reach = next (next here (begin refl)) (arrive message)

Reach-Conserved_example : Conserved sender standard at_work
Reach-Conserved_example = Reach-Conserved sender standard two_messages 0 at_work-Reach

deadlock_reachable_example :
    Deadlocks sender
      (quiet sender (make 2) 0)
      two_messages.buffer
      (appended (make 2) (message ∷ message ∷ []))
deadlock_reachable_example =
    deadlock_reachable sender 2 (1 ∷ []) ((2 ∷ []) ∷ []) (message ∷ message ∷ []) 0 1 (foreign [])
      refl refl refl

drained :
    drain_queue sender (consumer_of sender (quiet sender two_messages 0))
    ≡ returns (0, record { queue = two_messages; sender = 1 })
unfolding drain_queue receive_all receive_loop put_back send runtime_done contains
drained = refl

drain-Leads_example : Leads sender standard (quiet sender two_messages 0) two_messages idle 1
drain-Leads_example =
    drain-Leads sender standard (quiet sender two_messages 0) 0
      (record { queue = two_messages; sender = 1 }) refl two_messages-IsOpen drained

drain-Settles_example : Settles sender managed at_work
drain-Settles_example = drain-Settles sender managed at_work two_messages-IsOpen

abbrev one_signal : Managed sender
one_signal = record {
  server = record {
    data_queue = two_messages;
    flush_signal = record { buffer = "queue_threshold" ∷ []; capacity = 10; closed = false };
  };
  sender = 0;
}

wake-woken_example :
    act sender one_report settings wake one_signal ≡ woken sender [] one_signal (second_call zero)
wake-woken_example =
    wake-woken sender one_report settings one_signal "queue_threshold" [] refl refl
      two_messages-IsOpen two_messages-some

wakes-lost_example :
    act_all sender one_report settings (wakes 5) one_signal
    ≡ returns (record (signals_left sender [] one_signal) { sender = 1 })
wakes-lost_example =
    wakes-lost sender one_report settings 4 one_signal "queue_threshold" (foreign []) 1 refl refl
      refl two_messages-IsOpen two_messages-some refl

abbrev new_server : Managed taker
new_server = record {
  server = record {
    data_queue = empty_queue;
    flush_signal = record { buffer = []; capacity = 10; closed = false };
  };
  sender = tt;
}

new_server-IsServed : IsServed taker one_report settings new_server
new_server-IsServed = record {
  running = record {
    queue = record { open' = refl; fits = omega arith };
    signals = record { open' = refl; fits = omega arith };
    room = omega arith;
  };
  names = tt;
  pending = λ high some'. absurd (some' refl);
}

act_all-IsServed_example :
    OnReturn
      (IsServed taker one_report settings)
      (act_all taker one_report settings (request posted ∷ wake ∷ request posted ∷ []) new_server)
act_all-IsServed_example =
    act_all-IsServed taker one_report settings (request posted ∷ wake ∷ request posted ∷ [])
      new_server (λ ms t. refl) new_server-IsServed

act_all-IsLow_example :
    OnReturn
      (IsLow taker one_report settings)
      (act_all taker one_report settings (request posted ∷ wake ∷ []) new_server)
act_all-IsLow_example =
    act_all-IsLow taker one_report settings (request posted ∷ []) new_server (λ ms t. refl)
      new_server-IsServed
