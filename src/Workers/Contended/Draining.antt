-- ===== src/Workers/Contended/Draining.antt =====
-- `DrainQueue` while the handlers send: where the messages are afterwards, and when it waits for ever.
use sumologic_lambda_extensi.Base.{
  ℕ, ◌<◌, ◌≡◌, refl, ◌∙◌, ap, ◌≢◌, Option, none, some, List, [], ◌∷◌, ◌++◌, append-nil, length,
  length-append, concat, All, Error, arith,
}
use sumologic_lambda_extensi.SumoClient.Services.{Bytes}
use sumologic_lambda_extensi.SumoClient.Enhance.{Outcome, done, panic}
use sumologic_lambda_extensi.Workers.Channel.{Run, returns, blocks, panics, diverges}
use sumologic_lambda_extensi.Workers.Sender.{LogSender}
use sumologic_lambda_extensi.Workers.Consumer.{◌>>=◌, runtime_done}
use sumologic_lambda_extensi.Workers.Consumer.Draining.{Sends}
use sumologic_lambda_extensi.Workers.Interleaving.Conservation.{count_if, count_if-append}
use sumologic_lambda_extensi.Workers.Contended.{
  Line, pending, arrive, Around, comes, Worker, with_line, looped, received_among, after_send_among,
  drain_among, put_back_among,
}
use sumologic_lambda_extensi.Workers.Contended.Lines.{
  IsOpenLine, arrive-IsOpenLine, arrive-pending, cleared, receive_line_open,
}
use sumologic_lambda_extensi.Workers.Contended.PuttingBack.{
  put_back_among-blocks, Holding, PutBack, put_back_among-PutBack, Same, Same-length,
}

module _ (L : LogSender) where
  -- Of these messages, each is in the queue, with a handler that waits, or in a batch that a call of
  -- `SendAllLogs` sent, once for each time it is here.
  pub record Accounts (n : ℕ) (xs : List Bytes) (l : Line) : Type 0 where
    pub line : IsOpenLine n l
    pub batches : List (List Bytes)
    pub sent : All (λ b. Sends L b) batches
    pub same : Same (pending l ++ concat batches) xs

  -- How a drain ends with these messages: it panics; or it returns, and they are accounted for; or it
  -- waits for ever, and they are more than fit into the queue.
  abbrev pub Drained : ℕ → List Bytes → Run (ℕ × Worker L) → Type 0
  Drained n xs (returns r) = Accounts n xs r.1.line
  Drained n xs blocks = n < length xs
  Drained n xs panics = Unit
  Drained n xs diverges = ⊥

  received_among_open :
      {n : ℕ} (a : Around) (l : Line)
      → IsOpenLine n l
      → received_among a l ≡ returns (pending l ++ a.before, cleared (arrive a.before l))
  received_among_open a l o =
      let k = arrive a.before l in
      ap looped (receive_line_open k (arrive-IsOpenLine a.before l o).open')
      ∙ ap (λ xs. returns (xs, cleared k)) (arrive-pending a.before l o.open')

  cleared-IsOpenLine : {n : ℕ} (l : Line) → IsOpenLine n l → IsOpenLine n (cleared l)
  cleared-IsOpenLine l o = record { open' = o.open'; sized = o.sized }

  Holding-Accounts :
      {n : ℕ} (xs ys : List Bytes) (l : Line) → Holding n xs l → Same xs ys → Accounts n ys l
  Holding-Accounts xs ys l h e = record {
    line = h.line;
    batches = [];
    sent = tt;
    same = λ p. ap (count_if p) (append-nil (pending l)) ∙ h.same p ∙ e p;
  }

  module _ (n : ℕ) (a : Around) (w : Worker L) (o : IsOpenLine n w.line) where
    abbrev all_messages : List Bytes
    all_messages = pending w.line ++ comes a

    abbrev got : List Bytes
    got = pending w.line ++ a.before

    abbrev emptied_line : Line
    emptied_line = cleared (arrive a.before w.line)

    emptied_open : IsOpenLine n emptied_line
    emptied_open = cleared-IsOpenLine (arrive a.before w.line) (arrive-IsOpenLine a.before w.line o)

    during-pending : pending (arrive a.during emptied_line) ≡ a.during
    during-pending = arrive-pending a.during emptied_line emptied_open.open'

    still-Same :
        Same (pending (arrive a.during emptied_line) ++ (got ++ concat a.between)) all_messages
    still-Same p = omega (
      arith,
      count_if-append p (pending (arrive a.during emptied_line)) (got ++ concat a.between),
      ap (count_if p) during-pending,
      count_if-append p got (concat a.between),
      count_if-append p (pending w.line) a.before,
      count_if-append p (pending w.line) (comes a),
      count_if-append p a.before (a.during ++ concat a.between),
      count_if-append p a.during (concat a.between),
    )

    sent-Same :
        Same
          (pending (arrive (concat a.between) (arrive a.during emptied_line)) ++ concat (got ∷ []))
          all_messages
    sent-Same p =
        let k = arrive a.during emptied_line in
        let later = arrive (concat a.between) k in
        let e =
          arrive-pending (concat a.between) k
            (arrive-IsOpenLine a.during emptied_line emptied_open).open' in
        omega (
          arith,
          still-Same p,
          count_if-append p (pending later) (concat (got ∷ [])),
          ap (count_if p) e,
          ap (count_if p) (append-nil got),
          count_if-append p (pending k) (concat a.between),
          count_if-append p (pending k) (got ++ concat a.between),
          count_if-append p got (concat a.between),
        )

    putting-Drained :
        (t : L.State) (r : Run Line)
        → PutBack n (pending (arrive a.during emptied_line) ++ (got ++ concat a.between)) r
        → Drained n all_messages (r >>= λ l. returns (runtime_done got, with_line L t l))
    putting-Drained t (returns l) h = Holding-Accounts _ all_messages l h still-Same
    putting-Drained t blocks h = omega (arith, h, Same-length _ all_messages still-Same)
    putting-Drained t panics h = absurd h
    putting-Drained t diverges h = h

    answered-Drained :
        (r : Outcome (Option Error) × L.State)
        → L.send_all_logs got w.sender ≡ r
        → Drained n all_messages (after_send_among L a got emptied_line r)
    answered-Drained (panic, t) e = tt
    answered-Drained (done none, t) e = record {
      line =
          arrive-IsOpenLine (concat a.between) (arrive a.during emptied_line)
            (arrive-IsOpenLine a.during emptied_line emptied_open);
      batches = got ∷ [];
      sent = ((w.sender, ap (λ (x : Outcome (Option Error) × L.State). x.0) e), tt);
      same = sent-Same;
    }
    answered-Drained (done (some x), t) e =
        let l = arrive a.during emptied_line in
        putting-Drained t (put_back_among got a.between l) (
          put_back_among-PutBack got a.between l
            (arrive-IsOpenLine a.during emptied_line emptied_open))

    -- For any sender, and whatever the handlers do: `DrainQueue` of the standard mode, on an open queue
    -- with handlers that may wait, panics; or it returns, and of the messages that were there and that
    -- came meanwhile each is in the queue, with a handler that waits, or in a batch that a call of
    -- `SendAllLogs` sent, as often as it came; or it waits for ever, and they are more than the queue's
    -- capacity.
    pub drain_among-Drained : Drained n all_messages (drain_among L a w)
    unfolding drain_among
    drain_among-Drained =
        rw (received_among_open a w.line o) (answered-Drained (L.send_all_logs got w.sender) refl)

    failed-blocks :
        (r : Outcome (Option Error) × L.State) (e : Error)
        → r.0 ≡ done (some e)
        → got ≢ []
        → n < length (got ++ a.during)
        → after_send_among L a got emptied_line r ≡ blocks
    failed-blocks (panic, t) e h ne more = cc
    failed-blocks (done none, t) e h ne more = cc
    failed-blocks (done (some x), t) e h ne more =
        let k = arrive a.during emptied_line in
        ap (λ (r : Run Line). r >>= λ l. returns (runtime_done got, with_line L t l))
          (put_back_among-blocks got a.between k
            (arrive-IsOpenLine a.during emptied_line emptied_open) ne
            (omega (arith, more, length-append got a.during, ap (λ xs. length xs) during-pending)))

    -- If a call of `SendAllLogs` fails for the messages that a drain of the standard mode received, those
    -- of the queue, of the handlers that waited and of those that came until then, and they are, with
    -- those that come during the call, more than the capacity, then `DrainQueue` waits for ever.
    pub drain_among-blocks :
        (e : Error)
        → (L.send_all_logs got w.sender).0 ≡ done (some e)
        → got ≢ []
        → n < length (got ++ a.during)
        → drain_among L a w ≡ blocks
    unfolding drain_among
    drain_among-blocks e h ne more =
        rw (received_among_open a w.line o)
          (failed-blocks (L.send_all_logs got w.sender) e h ne more)
