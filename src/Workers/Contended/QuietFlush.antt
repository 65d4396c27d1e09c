-- ===== src/Workers/Contended/QuietFlush.antt =====
-- With no handler at work, the flush among the handlers is that of the consumer alone.
use sumologic_lambda_extensi.Base.{
  ℕ, zero, suc, ◌≡◌, refl, ◌∙◌, ap, Bool-cases, inl, inr, Option, none, some, List, [], length,
  Error,
}
use sumologic_lambda_extensi.Config.Defs.{LambdaExtensionConfig}
use sumologic_lambda_extensi.SumoClient.Services.{Bytes}
use sumologic_lambda_extensi.SumoClient.Enhance.{Outcome, done, panic}
use sumologic_lambda_extensi.Workers.Channel.{
  Run, returns, blocks, panics, diverges, Channel, close, put_back,
}
use sumologic_lambda_extensi.Workers.Sender.{LogSender}
use sumologic_lambda_extensi.Workers.Consumer.{
  Consumer, ◌>>=◌, with_queue, received, drain_queue, after_flush, drain_times, max_calls,
  flush_data_queue,
}
use sumologic_lambda_extensi.Workers.Contended.{
  Line, put_back_among, Worker, close_line, after_flush_among, drain_times_among, flush_among,
}
use sumologic_lambda_extensi.Workers.Contended.Quiet.{
  alone, nothing_comes, alone_run, drained_of, flushed_of, worker_of, arrive_nothing,
  put_back-alone, received-alone, afterwards, drain_among-drain_queue,
}

module _ (L : LogSender) where
  drained_then :
      (r : Run (ℕ × Consumer L)) (f : Worker L → Run (Worker L)) (g : Consumer L → Run (Consumer L))
      → ((c : Consumer L) → f (worker_of L c) ≡ flushed_of L (g c))
      → (drained_of L r >>= λ x. f x.1) ≡ flushed_of L (r >>= λ x. g x.1)
  drained_then (returns x) f g e = e x.1
  drained_then blocks f g e = refl
  drained_then panics f g e = refl
  drained_then diverges f g e = refl

  drain_times-alone :
      (n : ℕ) (c : Consumer L)
      → drain_times_among L n (λ k. nothing_comes) (worker_of L c)
        ≡ flushed_of L (drain_times L n c)
  unfolding drain_times_among drain_times
  drain_times-alone zero c = refl
  drain_times-alone (suc n) c =
      ap (λ r. r >>= λ x. drain_times_among L n (λ k. nothing_comes) x.1)
        (drain_among-drain_queue L c)
      ∙ drained_then (drain_queue L c) (drain_times_among L n (λ k. nothing_comes))
          (drain_times L n) (drain_times-alone n)

  closed_of :
      (t : L.State) (r : Run (Channel Bytes))
      → (r >>= (λ q. returns (alone q)) >>= λ l. returns (record { line = l; sender = t }))
        ≡ flushed_of L (r >>= λ q. returns (with_queue L t q))
  closed_of t (returns q) = refl
  closed_of t blocks = refl
  closed_of t panics = refl
  closed_of t diverges = refl

  put_back_closed :
      (t : L.State) (r : Run (Channel Bytes))
      → (alone_run r >>= (λ l. close_line L l >>= λ m. returns (record { line = m; sender = t })))
        ≡ flushed_of L (r >>= (λ q. close q >>= λ p. returns (with_queue L t p)))
  put_back_closed t (returns q) = closed_of t (close q)
  put_back_closed t blocks = refl
  put_back_closed t panics = refl
  put_back_closed t diverges = refl

  after_flush-alone :
      (ms : List Bytes) (q : Channel Bytes) (r : Outcome (Option Error) × L.State)
      → after_flush_among L nothing_comes ms (alone q) r ≡ flushed_of L (after_flush L ms q r)
  after_flush-alone ms q (panic, t) = refl
  after_flush-alone ms q (done none, t) =
      ap (λ (l : Line). close_line L l >>= λ m. returns (record { line = m; sender = t }))
        (arrive_nothing q)
      ∙ closed_of t (close q)
  after_flush-alone ms q (done (some e), t) =
      ap
        (λ (l : Line). put_back_among ms [] l >>= λ l'.
          close_line L l' >>= λ m. returns (record { line = m; sender = t }))
        (arrive_nothing q)
      ∙ ap (λ r. r >>= λ l'. close_line L l' >>= λ m. returns (record { line = m; sender = t }))
          (put_back-alone ms q)
      ∙ put_back_closed t (put_back ms q)

  -- With no handler at work, the flush among the handlers is that of the consumer alone.
  pub flush_among-flush_data_queue :
      (cfg : LambdaExtensionConfig) (c : Consumer L)
      → flush_among L cfg (λ k. nothing_comes) (worker_of L c)
        ≡ flushed_of L (flush_data_queue L cfg c)
  unfolding flush_among flush_data_queue
  flush_among-flush_data_queue cfg c = elim (Bool-cases cfg.enable_failover) [
    | inl on ↦ rw on (
        received-alone L c
          (λ r. after_flush_among L nothing_comes r.0 r.1 (L.flush_all r.0 c.sender))
        ∙ afterwards L (received L c) (λ r. after_flush L r.0 r.1 (L.flush_all r.0 c.sender))
            (λ d. returns (worker_of L d))
            (λ r. after_flush_among L nothing_comes r.0 (alone r.1) (L.flush_all r.0 c.sender))
            (λ r. after_flush-alone r.0 r.1 (L.flush_all r.0 c.sender)))
    | inr off ↦ rw off (
        afterwards L (max_calls (length c.queue.buffer) cfg.max_concurrent_requests)
          (λ n. drain_times L n c) (λ d. returns (worker_of L d))
          (λ n. drain_times_among L n (λ k. nothing_comes) (worker_of L c))
          (λ n. drain_times-alone n c))
  ]
