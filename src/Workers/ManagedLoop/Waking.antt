-- ===== src/Workers/ManagedLoop/Waking.antt =====
-- What a turn of the goroutine does with a signal, and what the goroutine and the handler keep together.
use sumologic_lambda_extensi.Base.{
  ℕ, zero, suc, ◌≡◌, refl, ◌≢◌, ◌∙◌, ap, false, Option, none, some, List, [], ◌∷◌, String, Error,
  Result,
}
use sumologic_lambda_extensi.Config.Defs.{LambdaExtensionConfig}
use sumologic_lambda_extensi.SumoClient.Services.{Bytes}
use sumologic_lambda_extensi.SumoClient.Enhance.{Outcome, done, panic}
use sumologic_lambda_extensi.Workers.Channel.{Run, returns, panics, receive_from}
use sumologic_lambda_extensi.Workers.ChannelLaws.{emptied}
use sumologic_lambda_extensi.Workers.Sender.{LogSender}
use sumologic_lambda_extensi.Workers.Consumer.{◌>>=◌, Consumer, with_queue}
use sumologic_lambda_extensi.Workers.Consumer.Draining.{IsOpen, settled, drain_queue-settled}
use sumologic_lambda_extensi.Workers.ManagedConsumer.{managed_drain_queue, on_signal}
use sumologic_lambda_extensi.Workers.ManagedConsumer.Settling.{
  managed_drain_queue-eq-drain_queue, managed_drain_queue-nil,
}
use sumologic_lambda_extensi.Workers.ManagedProducer.{Event}
use sumologic_lambda_extensi.Workers.ManagedLoop.{
  Managed, consumer_of, with_consumer, loops, take_signal, flush_signals_turn, Action, wake, awake,
  act, act_all,
}
use sumologic_lambda_extensi.Workers.ManagedLoop.Serving.{IsSignal}

-- So many turns of the goroutine.
abbrev pub wakes : ℕ → List Action
wakes zero = []
wakes (suc n) = wake ∷ wakes n

module _ (L : LogSender) where
  abbrev pub signals_left : List String → Managed L → Managed L
  signals_left names s = record s {
    server = record s.server { flush_signal = record s.server.flush_signal { buffer = names } };
  }

  -- Where the call of the sender leaves the process, with these signals still to come.
  abbrev pub woken : List String → Managed L → Outcome (Option Error) × L.State → Run (Managed L)
  woken names s (panic, t) = panics
  woken names s (done none, t) =
      returns
        (with_consumer L (signals_left names s) (with_queue L t (emptied s.server.data_queue)))
  woken names s (done (some e), t) =
      returns (with_consumer L (signals_left names s) (with_queue L t s.server.data_queue))

  on_signal-drain :
      (name : String) (c : Consumer L)
      → IsSignal name
      → on_signal L name c ≡ (managed_drain_queue L c >>= λ r. returns r.1)
  unfolding on_signal
  on_signal-drain name c n = rw n refl

  abbrev zeroed : Run (ℕ × Consumer L) → Run (ℕ × Consumer L)
  zeroed m = m >>= λ r. returns (0, r.1)

  -- The rest of a turn, from the end of `DrainQueue` on.
  abbrev turned : List String → Managed L → Run (ℕ × Consumer L) → Run (Managed L)
  turned names s m =
      awake L s (
        m >>= (λ r. returns r.1) >>= λ c.
        returns (loops (with_consumer L (signals_left names s) c)))

  settled-woken :
      (names : List String) (s : Managed L) (r : Outcome (Option Error) × L.State)
      → turned names s (zeroed (settled L (consumer_of L s) r)) ≡ woken names s r
  settled-woken names s (panic, t) = refl
  settled-woken names s (done none, t) = refl
  settled-woken names s (done (some e), t) = refl

  module _ (unmarshal_events : Bytes → Result (List Event)) (cfg : LambdaExtensionConfig) where
    -- A turn with no signal: the goroutine goes on waiting.
    pub wake-nil :
        (s : Managed L)
        → s.server.flush_signal.buffer ≡ []
        → s.server.flush_signal.closed ≡ false
        → act L unmarshal_events cfg wake s ≡ returns s
    unfolding act flush_signals_turn
    wake-nil s b o = rw (b, act) (rw o refl)

    wake-turned :
        (s : Managed L) (name : String) (names : List String)
        → s.server.flush_signal.buffer ≡ name ∷ names
        → IsSignal name
        → act L unmarshal_events cfg wake s
          ≡ turned names s (managed_drain_queue L (consumer_of L s))
    unfolding act flush_signals_turn
    wake-turned s name names b n =
        ap (λ l. awake L s (take_signal L s (receive_from l s.server.flush_signal))) b
        ∙ ap
            (λ m. awake L s (m >>= λ c. returns (loops (with_consumer L (signals_left names s) c))))
            (on_signal-drain name (consumer_of L s) n)

    -- In managed instance mode, with a signal in the channel and messages in an open queue within its
    -- capacity, the next turn of the goroutine takes the signal and makes one call of `SendAllLogs`,
    -- with all messages in order. It leaves the queue empty if the call succeeds and exactly as it was
    -- if the call fails, and panics if the call does.
    pub wake-woken :
        (s : Managed L) (name : String) (names : List String)
        → s.server.flush_signal.buffer ≡ name ∷ names
        → IsSignal name
        → IsOpen s.server.data_queue
        → s.server.data_queue.buffer ≢ []
        → act L unmarshal_events cfg wake s
          ≡ woken names s (L.send_all_logs s.server.data_queue.buffer s.sender)
    wake-woken s name names b n o some' =
        let c = consumer_of L s in
        wake-turned s name names b n
        ∙ ap (turned names s)
            (managed_drain_queue-eq-drain_queue L c o some' ∙ ap zeroed (drain_queue-settled L c o))
        ∙ settled-woken names s (L.send_all_logs s.server.data_queue.buffer s.sender)

    -- With no messages it only takes the signal.
    pub wake-no_messages :
        (s : Managed L) (name : String) (names : List String)
        → s.server.flush_signal.buffer ≡ name ∷ names
        → IsSignal name
        → IsOpen s.server.data_queue
        → s.server.data_queue.buffer ≡ []
        → act L unmarshal_events cfg wake s ≡ returns (signals_left names s)
    wake-no_messages s name names b n o none' =
        wake-turned s name names b n
        ∙ ap (turned names s) (managed_drain_queue-nil L (consumer_of L s) o none')

    asleep :
        (n : ℕ) (s : Managed L)
        → s.server.flush_signal.buffer ≡ []
        → s.server.flush_signal.closed ≡ false
        → act_all L unmarshal_events cfg (wakes n) s ≡ returns s
    unfolding act_all
    asleep zero s b o = refl
    asleep (suc n) s b o = rw (wake-nil s b o, act_all) (asleep n s b o)

    -- If one signal is in the channel and the drain that it starts fails, then however often the
    -- goroutine gets time afterwards, with no further request, the messages stay in the queue and the
    -- sender is not called again, however full the queue is.
    pub wakes-lost :
        (n : ℕ) (s : Managed L) (name : String) (e : Error) (t : L.State)
        → s.server.flush_signal.buffer ≡ name ∷ []
        → s.server.flush_signal.closed ≡ false
        → IsSignal name
        → IsOpen s.server.data_queue
        → s.server.data_queue.buffer ≢ []
        → L.send_all_logs s.server.data_queue.buffer s.sender ≡ (done (some e), t)
        → act_all L unmarshal_events cfg (wakes (suc n)) s
          ≡ returns (record (signals_left [] s) { sender = t })
    unfolding act_all
    wakes-lost n s name e t b o n' open'' some' r =
        rw (wake-woken s name [] b n' open'' some', act_all)
          (rw r (asleep n (record (signals_left [] s) { sender = t }) refl o))
