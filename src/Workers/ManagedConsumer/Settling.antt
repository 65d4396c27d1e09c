-- ===== src/Workers/ManagedConsumer/Settling.antt =====
-- Draining in managed instance mode, against draining in standard mode.
use sumologic_lambda_extensi.Base.{
  ℕ, ◌≡◌, refl, ◌∙◌, sym, ap, ◌≢◌, Option, none, some, List, [], ◌∷◌, if◌then◌else◌, Error, arith,
}
use sumologic_lambda_extensi.SumoClient.Services.{Bytes}
use sumologic_lambda_extensi.SumoClient.Enhance.{Outcome, done, panic}
use sumologic_lambda_extensi.SumoClient.Send.{is_nil}
use sumologic_lambda_extensi.Workers.Channel.{Run, returns}
use sumologic_lambda_extensi.Workers.ChannelLaws.{emptied, try_put_back_fits}
use sumologic_lambda_extensi.Workers.Sender.{LogSender}
use sumologic_lambda_extensi.Workers.Consumer.{◌>>=◌, Consumer, with_queue, drain_queue}
use sumologic_lambda_extensi.Workers.Consumer.Draining.{
  IsOpen, received_open, settled, drain_queue-settled,
}
use sumologic_lambda_extensi.Workers.ManagedConsumer.{after_managed_send, managed_drain_queue}

module _ (L : LogSender) where
  -- The same end as in standard mode, but for the number.
  abbrev zeroed : Run (ℕ × Consumer L) → Run (ℕ × Consumer L)
  zeroed m = m >>= λ r. returns (0, r.1)

  after_managed_send-settled :
      (c : Consumer L) (r : Outcome (Option Error) × L.State)
      → IsOpen c.queue
      → after_managed_send L c.queue.buffer (emptied c.queue) r ≡ zeroed (settled L c r)
  after_managed_send-settled c (panic, t) o = refl
  after_managed_send-settled c (done none, t) o = refl
  after_managed_send-settled c (done (some e), t) o =
      rw (try_put_back_fits c.queue.buffer (emptied c.queue) o.open' (omega (arith, o.fits)))

  abbrev drain_body : Consumer L → List Bytes → Run (ℕ × Consumer L)
  drain_body c msgs =
      if is_nil msgs
      then returns (0, with_queue L c.sender (emptied c.queue))
      else after_managed_send L msgs (emptied c.queue) (L.send_all_logs msgs c.sender)

  managed_drain_queue-body :
      (c : Consumer L) → IsOpen c.queue → managed_drain_queue L c ≡ drain_body c c.queue.buffer
  unfolding managed_drain_queue
  managed_drain_queue-body c o = rw (received_open L c o)

  nonempty-body :
      (c : Consumer L) (msgs : List Bytes)
      → msgs ≢ []
      → drain_body c msgs
        ≡ after_managed_send L msgs (emptied c.queue) (L.send_all_logs msgs c.sender)
  nonempty-body c [] h = absurd (h refl)
  nonempty-body c (m ∷ ms) h = refl

  -- On an open queue with messages, draining in managed instance mode does what draining in standard
  -- mode does, and returns 0: although it drops what it cannot put back, it drops nothing, for there is
  -- room for all.
  pub managed_drain_queue-eq-drain_queue :
      (c : Consumer L)
      → IsOpen c.queue
      → c.queue.buffer ≢ []
      → managed_drain_queue L c ≡ (drain_queue L c >>= λ r. returns (0, r.1))
  managed_drain_queue-eq-drain_queue c o h =
      managed_drain_queue-body c o
      ∙ nonempty-body c c.queue.buffer h
      ∙ after_managed_send-settled c (L.send_all_logs c.queue.buffer c.sender) o
      ∙ ap zeroed (sym (drain_queue-settled L c o))

  nil-body :
      (c : Consumer L) (msgs : List Bytes)
      → msgs ≡ c.queue.buffer
      → msgs ≡ []
      → drain_body c msgs ≡ returns (0, c)
  nil-body c [] e h =
      ap (λ (l : List Bytes). returns (0, with_queue L c.sender (record c.queue { buffer = l }))) e
  nil-body c (m ∷ ms) e h = cc

  -- With no messages it makes no call and changes nothing.
  pub managed_drain_queue-nil :
      (c : Consumer L)
      → IsOpen c.queue
      → c.queue.buffer ≡ []
      → managed_drain_queue L c ≡ returns (0, c)
  managed_drain_queue-nil c o h = managed_drain_queue-body c o ∙ nil-body c c.queue.buffer refl h
