-- ===== src/Workers/Contended/Quiet.antt =====
-- With no handler at work, the drains among the handlers are those of the consumer alone.
use sumologic_lambda_extensi.Base.{
  ℕ, zero, suc, ◌≡◌, refl, ◌∙◌, ap, Bool-cases, inl, inr, Option, none, some, List, [], ◌∷◌, ◌++◌,
  append-nil, length, Error,
}
use sumologic_lambda_extensi.SumoClient.Services.{Bytes}
use sumologic_lambda_extensi.SumoClient.Enhance.{Outcome, done, panic}
use sumologic_lambda_extensi.Workers.Channel.{
  Run, returns, blocks, panics, diverges, Channel, send, put_back, receive_loop, receive_all,
  receive_from, value, nothing, zero_value,
}
use sumologic_lambda_extensi.Workers.Sender.{LogSender}
use sumologic_lambda_extensi.Workers.Consumer.{
  Consumer, ◌>>=◌, with_queue, received, after_send, runtime_done, drain_queue,
}
use sumologic_lambda_extensi.Workers.Contended.{
  Line, pending, fill, arrive, put_back_among, receive_line, looped, Around, Worker, received_among,
  after_send_among, drain_among,
}

-- A queue with no handler that waits.
abbrev pub alone : Channel Bytes → Line
alone q = record { channel = q; waiting = [] }

abbrev pub nothing_comes : Around
nothing_comes = record { before = []; during = []; between = [] }

pub arrive_nothing : (q : Channel Bytes) → arrive [] (alone q) ≡ alone q
unfolding arrive fill
arrive_nothing q = elim (Bool-cases q.closed) [ inl e ↦ rw e refl | inr e ↦ rw e refl ]

abbrev pub alone_run : Run (Channel Bytes) → Run Line
alone_run r = r >>= λ q. returns (alone q)

pub put_back-alone :
    (ms : List Bytes) (q : Channel Bytes)
    → put_back_among ms [] (alone q) ≡ alone_run (put_back ms q)
unfolding put_back_among put_back
put_back-alone [] q = ap returns (arrive_nothing q)
put_back-alone (m ∷ ms) q =
    ap
      (λ (l : Line). elim (send m l.channel) as (λ _. Run Line) [
        | returns c ↦ put_back_among ms [] (record { channel = c; waiting = l.waiting })
        | blocks ↦ blocks
        | panics ↦ panics
        | diverges ↦ diverges
      ])
      (arrive_nothing q)
    ∙ sends (send m q) (put_back-alone ms)
  where
    sends :
        (r : Run (Channel Bytes))
        → ((c : Channel Bytes) → put_back_among ms [] (alone c) ≡ alone_run (put_back ms c))
        → elim r as (λ _. Run Line) [
          | returns c ↦ put_back_among ms [] (alone c)
          | blocks ↦ blocks
          | panics ↦ panics
          | diverges ↦ diverges
        ]
          ≡ alone_run (elim r [
            | returns c ↦ put_back ms c
            | blocks ↦ blocks
            | panics ↦ panics
            | diverges ↦ diverges
          ])
    sends (returns c) again = again c
    sends blocks again = refl
    sends panics again = refl
    sends diverges again = refl

abbrev alone_received : Option (List Bytes × Channel Bytes) → Option (List Bytes × Line)
alone_received none = none
alone_received (some r) = some (r.0, alone r.1)

receive_alone :
    (fuel : ℕ) (q : Channel Bytes) (got : List Bytes)
    → receive_line fuel (alone q) got ≡ alone_received (receive_loop fuel [] q got)
unfolding receive_line receive_loop fill
receive_alone zero q got = refl
receive_alone (suc fuel) q got =
    elim (receive_from q.buffer q)
      as (λ r.
        elim r as (λ _. Option (List Bytes × Line)) [
          | value m c ↦ receive_line fuel (fill [] c) (got ++ m ∷ [])
          | nothing ↦ some (got, alone q)
          | zero_value ↦ receive_line fuel (alone q) (got ++ [] ∷ [])
        ]
        ≡ alone_received (elim r [
          | value m c ↦ receive_loop fuel [] c (got ++ m ∷ [])
          | nothing ↦ some (got, q)
          | zero_value ↦ receive_loop fuel [] q (got ++ [] ∷ [])
        ])) [
          | value m c ↦ receive_alone fuel c (got ++ m ∷ [])
          | nothing ↦ refl
          | zero_value ↦ receive_alone fuel q (got ++ [] ∷ [])
        ]

looped-alone :
    {R : Type 0} (r : Option (List Bytes × Channel Bytes)) (f : List Bytes × Line → Run R)
    → (looped (alone_received r) >>= f) ≡ (
        elim r as (λ _. Run (List Bytes × Channel Bytes)) [ none ↦ diverges | some x ↦ returns x ]
        >>= λ x. f (x.0, alone x.1))
looped-alone none f = refl
looped-alone (some x) f = refl

module _ (L : LogSender) where
  abbrev pub worker_of : Consumer L → Worker L
  worker_of c = record { line = alone c.queue; sender = c.sender }

  pub received-alone :
      {R : Type 0} (c : Consumer L) (f : List Bytes × Line → Run R)
      → (received_among nothing_comes (alone c.queue) >>= f)
        ≡ (received L c >>= λ x. f (x.0, alone x.1))
  unfolding receive_all
  received-alone c f =
      ap (λ (l : Line). looped (receive_line (suc (length (pending l))) l []) >>= f)
        (arrive_nothing c.queue)
      ∙ ap (λ n. looped (receive_line (suc n) (alone c.queue) []) >>= f)
          (ap (λ xs. length xs) (append-nil c.queue.buffer))
      ∙ ap (λ r. looped r >>= f) (receive_alone (suc (length c.queue.buffer)) c.queue [])
      ∙ looped-alone (receive_loop (suc (length c.queue.buffer)) [] c.queue []) f

  abbrev pub drained_of : Run (ℕ × Consumer L) → Run (ℕ × Worker L)
  drained_of r = r >>= λ x. returns (x.0, worker_of x.1)

  abbrev pub flushed_of : Run (Consumer L) → Run (Worker L)
  flushed_of r = r >>= λ d. returns (worker_of d)

  put_back_of :
      (k : ℕ) (t : L.State) (r : Run (Channel Bytes))
      → (alone_run r >>= λ l. returns (k, record { line = l; sender = t }))
        ≡ drained_of (r >>= λ q. returns (k, with_queue L t q))
  put_back_of k t (returns q) = refl
  put_back_of k t blocks = refl
  put_back_of k t panics = refl
  put_back_of k t diverges = refl

  after_send-alone :
      (ms : List Bytes) (q : Channel Bytes) (r : Outcome (Option Error) × L.State)
      → after_send_among L nothing_comes ms (alone q) r ≡ drained_of (after_send L ms q r)
  after_send-alone ms q (panic, t) = refl
  after_send-alone ms q (done none, t) =
      ap (λ (l : Line). returns (runtime_done ms, record { line = l; sender = t }))
        (ap (arrive []) (arrive_nothing q) ∙ arrive_nothing q)
  after_send-alone ms q (done (some e), t) =
      ap
        (λ (l : Line). put_back_among ms [] l >>= λ l'.
          returns (runtime_done ms, record { line = l'; sender = t }))
        (arrive_nothing q)
      ∙ ap (λ r. r >>= λ l'. returns (runtime_done ms, record { line = l'; sender = t }))
          (put_back-alone ms q)
      ∙ put_back_of (runtime_done ms) t (put_back ms q)

  pub afterwards :
      {A : Type 0} {B : Type 0} {C : Type 0} (r : Run A) (f : A → Run B) (g : B → Run C)
      (h : A → Run C)
      → ((a : A) → h a ≡ (f a >>= g))
      → (r >>= h) ≡ (r >>= f >>= g)
  afterwards (returns a) f g h e = e a
  afterwards blocks f g h e = refl
  afterwards panics f g h e = refl
  afterwards diverges f g h e = refl

  -- With no handler at work, the drain among the handlers is the drain of the consumer alone.
  pub drain_among-drain_queue :
      (c : Consumer L) → drain_among L nothing_comes (worker_of c) ≡ drained_of (drain_queue L c)
  unfolding drain_among drain_queue
  drain_among-drain_queue c =
      received-alone c
        (λ r. after_send_among L nothing_comes r.0 r.1 (L.send_all_logs r.0 c.sender))
      ∙ afterwards (received L c) (λ r. after_send L r.0 r.1 (L.send_all_logs r.0 c.sender))
          (λ x. returns (x.0, worker_of x.1))
          (λ r. after_send_among L nothing_comes r.0 (alone r.1) (L.send_all_logs r.0 c.sender))
          (λ r. after_send-alone r.0 r.1 (L.send_all_logs r.0 c.sender))
