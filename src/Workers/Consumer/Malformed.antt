-- ===== src/Workers/Consumer/Malformed.antt =====
-- A queue that holds a message which does not parse, drained by the Sumo client.
use sumologic_lambda_extensi.Base.{ℕ, zero, suc, ◌<◌, ◌≡◌, refl, ◌≢◌, Option, none, some, Error}
use sumologic_lambda_extensi.Config.Defs.{LambdaExtensionConfig}
use sumologic_lambda_extensi.SumoClient.Services.{Bytes, Services, ClientState}
use sumologic_lambda_extensi.SumoClient.Enhance.{Outcome, done, panic}
use sumologic_lambda_extensi.SumoClient.Send.{send_all_logs}
use sumologic_lambda_extensi.SumoClient.Send.Malformed.{malformed, send_all_logs-malformed}
use sumologic_lambda_extensi.Workers.Channel.{Run, returns, panics, Channel}
use sumologic_lambda_extensi.Workers.Sender.{LogSender, sumo_sender}
use sumologic_lambda_extensi.Workers.Consumer.{Consumer, ◌>>=◌, with_queue, drain_times}
use sumologic_lambda_extensi.Workers.Consumer.Draining.{IsOpen, settled, drain_queue-settled}

module _ (S : Services) (cfg : LambdaExtensionConfig) where
  abbrev pub sumo : LogSender
  sumo = sumo_sender S cfg

  -- The goroutine panics, or it returns with the same queue.
  abbrev pub Stays : Channel Bytes → Run (Consumer sumo) → Type 0
  Stays q (returns c) = c.queue ≡ q
  Stays q panics = Unit
  Stays q _ = ⊥

  -- However often an open queue is drained that holds a message which does not parse, all its messages
  -- stay in it, or the extension panics.
  pub drain_times-malformed :
      (n : ℕ) (c : Consumer sumo)
      → IsOpen c.queue
      → 0 < malformed S cfg c.queue.buffer
      → Stays c.queue (drain_times sumo n c)
  unfolding drain_times
  drain_times-malformed zero c o h = refl
  drain_times-malformed (suc n) c o h = rw (drain_queue-settled sumo c o) (
      next (send_all_logs S cfg c.queue.buffer c.sender)
        (send_all_logs-malformed S cfg c.queue.buffer c.sender h)
        (λ t. drain_times-malformed n (with_queue sumo t c.queue) o h))
    where
      next :
          (r : Outcome (Option Error) × ClientState S)
          → r.0 ≢ done none
          → ((t : ClientState S) → Stays c.queue (drain_times sumo n (with_queue sumo t c.queue)))
          → Stays c.queue (settled sumo c r >>= λ p. drain_times sumo n p.1)
      next (panic, t) ne again = tt
      next (done none, t) ne again = absurd (ne refl)
      next (done (some e), t) ne again = again t
