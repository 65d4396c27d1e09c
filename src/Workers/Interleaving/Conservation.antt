-- ===== src/Workers/Interleaving/Conservation.antt =====
-- No message is lost or doubled, in any interleaving.
use sumologic_lambda_extensi.Base.{
  ℕ, ◌+◌, ◌≡◌, refl, ◌∙◌, ap, append-nil, Bool, true, false, Option, none, some, List, [], ◌∷◌,
  ◌++◌, if◌then◌else◌, Error, arith,
}
use sumologic_lambda_extensi.SumoClient.Services.{Bytes}
use sumologic_lambda_extensi.SumoClient.Enhance.{Outcome, done, panic}
use sumologic_lambda_extensi.Workers.Channel.{returns, Channel, send, try_send, receive_from, value}
use sumologic_lambda_extensi.Workers.Sender.{LogSender}
use sumologic_lambda_extensi.Workers.Interleaving.{
  Mode, standard, managed, Offers, sent, queued, dropped, Phase, idle, receiving, sending,
  putting_back, crashed, after_default, System, answered, Step, arrive, handle, begin, receive,
  receive_nothing, answer, put, finish, Reach, here, next, quiet,
}

abbrev pub count_if {ℓ} : {A : Type ℓ} → (A → Bool) → List A → ℕ
count_if p [] = 0
count_if p (x ∷ xs) = (if p x then 1 else 0) + count_if p xs

pub count_if-append {ℓ} :
    {A : Type ℓ} (p : A → Bool) (xs ys : List A)
    → count_if p (xs ++ ys) ≡ count_if p xs + count_if p ys
count_if-append p [] ys = omega arith
count_if-append p (x ∷ xs) ys = omega (arith, count_if-append p xs ys)

abbrev pub held : Phase → List Bytes
held idle = []
held (receiving got) = got
held (sending got) = got
held (putting_back rest) = rest
held (crashed got) = got

module _ (p : Bytes → Bool) where
  abbrev one : Bytes → ℕ
  one m = if p m then 1 else 0

  send-count :
      (m : Bytes) (q q' : Channel Bytes)
      → send m q ≡ returns q'
      → count_if p q'.buffer ≡ count_if p q.buffer + one m
  unfolding send
  send-count m q q' h = ground (arith, count_if-append p q.buffer (m ∷ []))

  -- A send with a `default` case, by whether it was made.
  try_send-count :
      (m : Bytes) (q q' : Channel Bytes) (made : Bool)
      → try_send m q ≡ returns (made, q')
      → count_if p q'.buffer ≡ count_if p q.buffer + (if made then one m else 0)
  unfolding try_send
  try_send-count m q q' made h = ground (arith, count_if-append p q.buffer (m ∷ []))

  Offers-count :
      {mode : Mode} {m : Bytes} {q q' : Channel Bytes} {ds : List Bytes}
      → Offers m q q' mode ds
      → count_if p q'.buffer + count_if p ds ≡ count_if p q.buffer + one m
  Offers-count {m = m} {q = q} {q' = q'} (sent h) = omega (arith, send-count m q q' h)
  Offers-count {m = m} {q = q} {q' = q'} (queued h) = omega (arith, try_send-count m q q' true h)
  Offers-count {m = m} {q = q} {q' = q'} (dropped h) = omega (arith, try_send-count m q q' false h)

  receive-count :
      (xs : List Bytes) (q : Channel Bytes) (m : Bytes) (q' : Channel Bytes)
      → receive_from xs q ≡ value m q'
      → count_if p xs ≡ one m + count_if p q'.buffer
  receive-count [] q m q' h = ground arith
  receive-count (x ∷ xs) q m q' h = ground arith

  held-after_default :
      (mode : Mode) (got : List Bytes) → count_if p (held (after_default mode got)) ≡ count_if p got
  held-after_default standard got = refl
  held-after_default managed [] = refl
  held-after_default managed (m ∷ got) = refl

  module _ {L : LogSender} where
    -- How many of the messages in the system, delivered or lost satisfy the test.
    abbrev somewhere : System L → ℕ
    somewhere s =
        count_if p s.handlers
        + count_if p s.queue.buffer
        + count_if p (held s.phase)
        + count_if p s.delivered
        + count_if p s.lost

    abbrev Accounted : System L → Type 0
    Accounted s = count_if p s.arrived ≡ somewhere s

    answered-Accounted :
        (got : List Bytes) (r : Outcome (Option Error) × L.State) (s : System L)
        → s.phase ≡ sending got
        → Accounted s
        → Accounted (answered L got r s)
    answered-Accounted got (panic, t) s h v = omega (arith, ap (λ f. count_if p (held f)) h)
    answered-Accounted got (done none, t) s h v =
        omega (arith, ap (λ f. count_if p (held f)) h, count_if-append p s.delivered got)
    answered-Accounted got (done (some e), t) s h v = omega (arith, ap (λ f. count_if p (held f)) h)

    Step-Accounted : {mode : Mode} {s t : System L} → Step L mode s t → Accounted s → Accounted t
    Step-Accounted {s = s} (arrive m) v =
        omega (arith, count_if-append p s.handlers (m ∷ []), count_if-append p s.arrived (m ∷ []))
    Step-Accounted {s = s} (handle xs ys m {q} {ds} e o) v = omega (
      arith,
      Offers-count o,
      ap (count_if p) e,
      count_if-append p xs (m ∷ ys),
      count_if-append p xs ys,
      count_if-append p s.lost ds,
    )
    Step-Accounted (begin h) v = omega (arith, ap (λ f. count_if p (held f)) h)
    Step-Accounted {s = s} (receive got m {q} h e) v = omega (
      arith,
      ap (λ f. count_if p (held f)) h,
      receive-count s.queue.buffer s.queue m q e,
      count_if-append p got (m ∷ []),
    )
    Step-Accounted {mode = mode} (receive_nothing got h e) v =
        omega (arith, ap (λ f. count_if p (held f)) h, held-after_default mode got)
    Step-Accounted {s = s} (answer got h) v =
        answered-Accounted got (L.send_all_logs got s.sender) s h v
    Step-Accounted {s = s} (put m rest {q} {ds} h o) v =
        omega (arith, ap (λ f. count_if p (held f)) h, Offers-count o, count_if-append p s.lost ds)
    Step-Accounted (finish h) v = omega (arith, ap (λ f. count_if p (held f)) h)

    Reach-Accounted : {mode : Mode} {s t : System L} → Accounted s → Reach L mode s t → Accounted t
    Reach-Accounted v here = v
    Reach-Accounted v (next r st) = Step-Accounted st (Reach-Accounted v r)

Offers-standard :
    {m : Bytes} {q q' : Channel Bytes} {ds : List Bytes} → Offers m q q' standard ds → ds ≡ []
Offers-standard (sent h) = refl

module _ (L : LogSender) where
  quiet-Accounted : (p : Bytes → Bool) (q : Channel Bytes) (t : L.State) → Accounted p (quiet L q t)
  quiet-Accounted p q t = omega arith

  answered-lost :
      (got : List Bytes) (r : Outcome (Option Error) × L.State) (s : System L)
      → (answered L got r s).lost ≡ s.lost
  answered-lost got (panic, t) s = refl
  answered-lost got (done none, t) s = refl
  answered-lost got (done (some e), t) s = refl

  Step-lost : {s t : System L} → Step L standard s t → t.lost ≡ s.lost
  Step-lost (arrive m) = refl
  Step-lost {s = s} (handle xs ys m e o) =
      ap (λ l. s.lost ++ l) (Offers-standard o) ∙ append-nil s.lost
  Step-lost (begin h) = refl
  Step-lost (receive got m h e) = refl
  Step-lost (receive_nothing got h e) = refl
  Step-lost {s = s} (answer got h) = answered-lost got (L.send_all_logs got s.sender) s
  Step-lost {s = s} (put m rest h o) = ap (λ l. s.lost ++ l) (Offers-standard o) ∙ append-nil s.lost
  Step-lost (finish h) = refl

  Reach-lost : {s t : System L} → Reach L standard s t → t.lost ≡ s.lost
  Reach-lost here = refl
  Reach-lost (next r st) = Step-lost st ∙ Reach-lost r

  -- What became of the messages that arrived: as many of each kind as there were, and in standard mode none
  -- is lost.
  pub record Conserved (mode : Mode) (s : System L) : Type 0 where
    pub accounted : (p : Bytes → Bool) → count_if p s.arrived ≡ somewhere p s
    pub kept : mode ≡ standard → s.lost ≡ []

  -- In any interleaving of handlers and drains, in either mode and with any sender: of every kind of
  -- message, as many as arrived are about to be sent by their handlers, in the queue, held by the
  -- consumer, delivered by a call of the sender that succeeded, or lost; and in standard mode none is
  -- lost.
  pub Reach-Conserved :
      (mode : Mode) (q : Channel Bytes) (t : L.State) {s : System L}
      → Reach L mode (quiet L q t) s
      → Conserved mode s
  Reach-Conserved mode q t r = record {
    accounted =
        λ p. Reach-Accounted p {L = L} {mode = mode} {s = quiet L q t} (quiet-Accounted p q t) r;
    kept = kept_in mode r;
  }
    where
      kept_in : (m : Mode) {s : System L} → Reach L m (quiet L q t) s → m ≡ standard → s.lost ≡ []
      kept_in standard r e = Reach-lost r
      kept_in managed r e = cc
