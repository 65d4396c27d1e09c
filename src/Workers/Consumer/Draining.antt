-- ===== src/Workers/Consumer/Draining.antt =====
-- Draining an open queue with no handler at work: what stays in it, on success and on failure.
use sumologic_lambda_extensi.Base.{
  ℕ, zero, suc, ◌≤◌, ◌<◌, ◌≡◌, refl, ap, ◌≢◌, ◌⊎◌, inl, inr, true, false, Option, none, some, List,
  [], ◌∷◌, length, length-append, ℤ, pos, negsuc, Error, arith,
}
use sumologic_lambda_extensi.Config.Defs.{LambdaExtensionConfig}
use sumologic_lambda_extensi.SumoClient.Services.{Bytes}
use sumologic_lambda_extensi.SumoClient.Enhance.{Outcome, done, panic}
use sumologic_lambda_extensi.Workers.Channel.{
  Run, returns, blocks, panics, diverges, Channel, push, close,
}
use sumologic_lambda_extensi.Workers.ChannelLaws.{emptied, receive_all_open, put_back_fits}
use sumologic_lambda_extensi.Workers.Sender.{LogSender}
use sumologic_lambda_extensi.Workers.Consumer.{
  Consumer, ◌>>=◌, with_queue, received, after_send, runtime_done, drain_queue, after_flush,
  drain_times, max_calls, flush_data_queue,
}

-- An open channel that holds no more than its capacity.
pub record IsOpen {A : Type 0} (c : Channel A) : Type 0 where
  pub open' : c.closed ≡ false
  pub fits : length c.buffer ≤ c.capacity

-- A value for which there is room.
pub push-IsOpen :
    {A : Type 0} (c : Channel A) (a : A)
    → IsOpen c
    → length c.buffer < c.capacity
    → IsOpen (push c a)
push-IsOpen c a o room = record {
  open' = o.open';
  fits = omega (arith, length-append c.buffer (a ∷ []));
}

module _ (L : LogSender) where
  pub received_open :
      (c : Consumer L) → IsOpen c.queue → received L c ≡ returns (c.queue.buffer, emptied c.queue)
  received_open c o = rw (receive_all_open [] c.queue o.open', received)

  -- Where a call of the sender leaves the consumer: with an empty queue, or with the queue as it was.
  abbrev pub settled : Consumer L → Outcome (Option Error) × L.State → Run (ℕ × Consumer L)
  settled c (panic, t) = panics
  settled c (done none, t) = returns (runtime_done c.queue.buffer, with_queue L t (emptied c.queue))
  settled c (done (some e), t) = returns (runtime_done c.queue.buffer, with_queue L t c.queue)

  after_send-settled :
      (c : Consumer L) (r : Outcome (Option Error) × L.State)
      → IsOpen c.queue
      → after_send L c.queue.buffer (emptied c.queue) r ≡ settled c r
  after_send-settled c (panic, t) o = refl
  after_send-settled c (done none, t) o = refl
  after_send-settled c (done (some e), t) o =
      rw (put_back_fits c.queue.buffer (emptied c.queue) o.open' (omega (arith, o.fits)))

  -- On an open queue, with no handler at work, `DrainQueue` makes one call of `SendAllLogs`, with all
  -- messages in order. It neither waits nor goes on for ever: it leaves the queue empty if the call succeeds and exactly as it
  -- was if the call fails, and panics if the call does.
  pub drain_queue-settled :
      (c : Consumer L)
      → IsOpen c.queue
      → drain_queue L c ≡ settled c (L.send_all_logs c.queue.buffer c.sender)
  unfolding drain_queue
  drain_queue-settled c o =
      rw (received_open c o) (after_send-settled c (L.send_all_logs c.queue.buffer c.sender) o)

  -- Where `FlushAll` leaves the consumer.
  abbrev pub flushed : Consumer L → Outcome (Option Error) × L.State → Run (Consumer L)
  flushed c (panic, t) = panics
  flushed c (done none, t) =
      returns (with_queue L t (record c.queue { buffer = []; closed = true }))
  flushed c (done (some e), t) = returns (with_queue L t (record c.queue { closed = true }))

  close_open :
      (q : Channel Bytes) → q.closed ≡ false → close q ≡ returns (record q { closed = true })
  unfolding close
  close_open q o = ground arith

  after_flush-flushed :
      (c : Consumer L) (r : Outcome (Option Error) × L.State)
      → IsOpen c.queue
      → after_flush L c.queue.buffer (emptied c.queue) r ≡ flushed c r
  after_flush-flushed c (panic, t) o = refl
  after_flush-flushed c (done none, t) o = rw (close_open (emptied c.queue) o.open')
  after_flush-flushed c (done (some e), t) o =
      rw (put_back_fits c.queue.buffer (emptied c.queue) o.open' (omega (arith, o.fits)))
        (rw (close_open c.queue o.open'))

  flush_on :
      (cfg : LambdaExtensionConfig) (c : Consumer L)
      → cfg.enable_failover ≡ true
      → flush_data_queue L cfg c
        ≡ (received L c >>= λ r. after_flush L r.0 r.1 (L.flush_all r.0 c.sender))
  unfolding flush_data_queue
  flush_on cfg c on = ground arith

  -- With the failover enabled, the queue open and no handler at work, `FlushDataQueue` makes one call of `FlushAll`, with all
  -- messages in order, and closes the queue: empty if the call succeeds, with the same messages in it if
  -- the call fails. It panics only if the call does.
  pub flush_data_queue-flushed :
      (cfg : LambdaExtensionConfig) (c : Consumer L)
      → IsOpen c.queue
      → cfg.enable_failover ≡ true
      → flush_data_queue L cfg c ≡ flushed c (L.flush_all c.queue.buffer c.sender)
  flush_data_queue-flushed cfg c o on =
      rw (flush_on cfg c on, received_open c o)
        (after_flush-flushed c (L.flush_all c.queue.buffer c.sender) o)

  -- A call of `SendAllLogs` with these messages that succeeds.
  abbrev pub Sends : List Bytes → Type 0
  Sends ms = (t : L.State) × ((L.send_all_logs ms t).0 ≡ done none)

  -- The goroutine panics, or it returns: with the queue empty and all its messages sent by one call, or
  -- with the queue as it was.
  abbrev pub Keeps : Channel Bytes → Run (Consumer L) → Type 0
  Keeps q (returns c) = ((c.queue ≡ emptied q) × Sends q.buffer) ⊎ (c.queue ≡ q)
  Keeps q panics = Unit
  Keeps q _ = ⊥

  emptied-Keeps :
      (q : Channel Bytes) (r : Run (Consumer L)) → Sends q.buffer → Keeps (emptied q) r → Keeps q r
  emptied-Keeps q (returns c) d (inl (e, _)) = inl (e, d)
  emptied-Keeps q (returns c) d (inr e) = inl (e, d)
  emptied-Keeps q panics d h = tt
  emptied-Keeps q blocks d h = h
  emptied-Keeps q diverges d h = h

  drain_times-Keeps : (n : ℕ) (c : Consumer L) → IsOpen c.queue → Keeps c.queue (drain_times L n c)
  unfolding drain_times
  drain_times-Keeps zero c o = inr refl
  drain_times-Keeps (suc n) c o =
      rw (drain_queue-settled c o)
        (next (drain_times-Keeps n) (L.send_all_logs c.queue.buffer c.sender) refl)
    where
      next :
          ((d : Consumer L) → IsOpen d.queue → Keeps d.queue (drain_times L n d))
          → (r : Outcome (Option Error) × L.State) → L.send_all_logs c.queue.buffer c.sender ≡ r
          → Keeps c.queue (settled c r >>= λ p. drain_times L n p.1)
      next again (panic, t) e = tt
      next again (done none, t) e =
          emptied-Keeps c.queue _ (c.sender, ap (λ (x : Outcome (Option Error) × L.State). x.0) e)
            (again (with_queue L t (emptied c.queue))
              (record { open' = o.open'; fits = omega arith }))
      next again (done (some x), t) e = again (with_queue L t c.queue) o

  flush_off :
      (cfg : LambdaExtensionConfig) (c : Consumer L)
      → cfg.enable_failover ≡ false
      → flush_data_queue L cfg c
        ≡ (max_calls (length c.queue.buffer) cfg.max_concurrent_requests >>= λ n. drain_times L n c)
  unfolding flush_data_queue
  flush_off cfg c off = ground arith

  calls-Keeps :
      (c : Consumer L) (r : Run ℕ)
      → IsOpen c.queue
      → r ≢ blocks
      → r ≢ diverges
      → Keeps c.queue (r >>= λ n. drain_times L n c)
  calls-Keeps c (returns n) o b d = drain_times-Keeps n c o
  calls-Keeps c panics o b d = tt
  calls-Keeps c blocks o b d = b refl
  calls-Keeps c diverges o b d = d refl

  max_calls-returns : (n : ℕ) (m : ℤ) → (max_calls n m ≢ blocks) × (max_calls n m ≢ diverges)
  unfolding max_calls
  max_calls-returns n (pos zero) = (λ e. cc, λ e. cc)
  max_calls-returns n (pos (suc m)) = (λ e. cc, λ e. cc)
  max_calls-returns n (negsuc m) = (λ e. cc, λ e. cc)

  -- Without the failover, and for any limit on the concurrent requests, `FlushDataQueue` on an open queue
  -- within its capacity, with no handler at work, neither waits nor goes on for ever; and if it returns, then
  -- the queue is as it was, or it is empty and one call of `SendAllLogs` with all its messages in order
  -- succeeded.
  pub flush_data_queue-Keeps :
      (cfg : LambdaExtensionConfig) (c : Consumer L)
      → IsOpen c.queue
      → cfg.enable_failover ≡ false
      → Keeps c.queue (flush_data_queue L cfg c)
  flush_data_queue-Keeps cfg c o off =
      let m = max_calls-returns (length c.queue.buffer) cfg.max_concurrent_requests in
      rw (flush_off cfg c off) (calls-Keeps c _ o m.0 m.1)
