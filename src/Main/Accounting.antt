-- ===== src/Main/Accounting.antt =====
-- `processEvents` in standard mode: where the messages are, turn by turn.
use sumologic_lambda_extensi.Base.{
  ℕ, ◌≤◌, ◌<◌, ◌≡◌, refl, ap, sym, subst, Bool, true, false, Bool-cases, inl, inr, some, List, [],
  ◌∷◌, ◌++◌, append_assoc, append-nil, length, length-append, concat, concat-append, All,
  All-append, Result, ok, err, arith,
}
use sumologic_lambda_extensi.Base.Text.{codes, text_eq}
use sumologic_lambda_extensi.Config.Defs.{LambdaExtensionConfig}
use sumologic_lambda_extensi.SumoClient.Services.{Bytes}
use sumologic_lambda_extensi.Workers.Channel.{Run, returns, blocks, panics, diverges}
use sumologic_lambda_extensi.Workers.Sender.{LogSender}
use sumologic_lambda_extensi.Workers.Consumer.{◌>>=◌}
use sumologic_lambda_extensi.Workers.Consumer.Draining.{Sends}
use sumologic_lambda_extensi.Workers.Interleaving.Conservation.{count_if, count_if-append}
use sumologic_lambda_extensi.Workers.Contended.{Line, pending, Around, comes, Worker, drain_among}
use sumologic_lambda_extensi.Workers.Contended.PuttingBack.{Same-length}
use sumologic_lambda_extensi.Workers.Contended.Draining.{Accounts, Drained, drain_among-Drained}
use sumologic_lambda_extensi.LambdaApi.HttpClient.{NextEventResponse, Network}
use sumologic_lambda_extensi.LambdaApi.Calls.{next_event}
use sumologic_lambda_extensi.Main.{
  Turn, System, Next, goes_on, stops, drain_once, after_event, await_event, process_turn,
  process_loop,
}

-- What comes in a turn: with one drain, or with the one behind a shutdown event too.
pub data TurnCame (around : ℕ → Around) : List Bytes → Type 0 where
  once : TurnCame around (comes (around 0))
  twice : TurnCame around (comes (around 0) ++ comes (around 1))

-- What comes in the turns up to some turn, and in that one.
pub data Came : List Turn → List Bytes → Type 0 where
  in_first : (t : Turn) (ts : List Turn) {ys : List Bytes} → TurnCame t.around ys → Came (t ∷ ts) ys
  in_later :
      (t : Turn) (ts : List Turn) {ys : List Bytes}
      → Came ts ys
      → Came (t ∷ ts) (comes (t.around 0) ++ ys)

-- What comes in these turns, of which none is the last.
abbrev pub arrivals : List Turn → List Bytes
arrivals [] = []
arrivals (t ∷ ts) = comes (t.around 0) ++ arrivals ts

module _ (L : LogSender) (N : Network) (n : ℕ) where
  Accounts-trans :
      (xs ys : List Bytes) (l l' : Line)
      → Accounts L n xs l
      → Accounts L n (pending l ++ ys) l'
      → Accounts L n (xs ++ ys) l'
  Accounts-trans xs ys l l' a b = record {
    line = b.line;
    batches = a.batches ++ b.batches;
    sent = All-append (λ m. Sends L m) a.batches b.batches a.sent b.sent;
    same = λ p. omega (
      arith,
      a.same p,
      b.same p,
      ap (count_if p) (concat-append a.batches b.batches),
      count_if-append p (concat a.batches) (concat b.batches),
      count_if-append p (pending l') (concat (a.batches ++ b.batches)),
      count_if-append p (pending l') (concat b.batches),
      count_if-append p (pending l) (concat a.batches),
      count_if-append p (pending l) ys,
      count_if-append p xs ys,
    );
  }

  Accounts-length :
      (xs ys : List Bytes) (l : Line)
      → Accounts L n xs l
      → length (pending l ++ ys) ≤ length (xs ++ ys)
  Accounts-length xs ys l a = omega (
    arith,
    Same-length (pending l ++ concat a.batches) xs a.same,
    length-append (pending l) (concat a.batches),
    length-append (pending l) ys,
    length-append xs ys,
  )

  -- The consumer's messages, with those sent before, are these.
  pub data Contains (xs : List Bytes) (s : System L N) : Type 0 where
    contains : (w : Worker L) → s.consumer ≡ some w → Accounts L n xs w.line → Contains xs s

  abbrev Drains : List Bytes → Run (Worker L) → Type 0
  Drains xs (returns w) = Accounts L n xs w.line
  Drains xs blocks = n < length xs
  Drains xs panics = Unit
  Drains xs diverges = ⊥

  from_Drained :
      (xs ys : List Bytes) (l : Line) (r : Run (ℕ × Worker L))
      → Accounts L n xs l
      → Drained L n (pending l ++ ys) r
      → Drains (xs ++ ys) (r >>= λ p. returns p.1)
  from_Drained xs ys l (returns p) a h = Accounts-trans xs ys l p.1.line a h
  from_Drained xs ys l blocks a h = omega (arith, h, Accounts-length xs ys l a)
  from_Drained xs ys l panics a h = tt
  from_Drained xs ys l diverges a h = h

  drain_once-Drains :
      (xs : List Bytes) (a : Around) (w : Worker L)
      → Accounts L n xs w.line
      → Drains (xs ++ comes a) (drain_once L N a w)
  drain_once-Drains xs a w k =
      from_Drained xs (comes a) w.line (drain_among L a w) k (drain_among-Drained L n a w k.line)

  -- How a turn ends with these messages before it.
  abbrev TurnEnds : List Bytes → (ℕ → Around) → Run (Next L N) → Type 0
  TurnEnds xs around (returns (goes_on u)) = Contains (xs ++ comes (around 0)) u
  TurnEnds xs around (returns (stops u)) =
      (ys : List Bytes) × TurnCame around ys × Contains (xs ++ ys) u
  TurnEnds xs around blocks = (ys : List Bytes) × TurnCame around ys × (n < length (xs ++ ys))
  TurnEnds xs around panics = Unit
  TurnEnds xs around diverges = ⊥

  last_drain :
      (xs : List Bytes) (around : ℕ → Around) (s : System L N) (r : Run (Worker L))
      → Drains ((xs ++ comes (around 0)) ++ comes (around 1)) r
      → TurnEnds xs around
          (r >>= (λ w. returns (record s { consumer = some w })) >>= λ u. returns (stops u))
  last_drain xs around s (returns w) h = (
    comes (around 0) ++ comes (around 1),
    twice,
    contains w refl (
        subst (λ ys. Accounts L n ys w.line) (append_assoc xs (comes (around 0)) (comes (around 1)))
          h),
  )
  last_drain xs around s blocks h = (
    comes (around 0) ++ comes (around 1),
    twice,
    subst (λ ys. n < length ys) (append_assoc xs (comes (around 0)) (comes (around 1))) h,
  )
  last_drain xs around s panics h = tt
  last_drain xs around s diverges h = h

  after_event-TurnEnds :
      (xs : List Bytes) (around : ℕ → Around) (r : Result NextEventResponse) (s : System L N)
      → Contains (xs ++ comes (around 0)) s
      → TurnEnds xs around (after_event L N (around 1) r s)
  after_event-TurnEnds xs around (err e) s k = (comes (around 0), once, k)
  after_event-TurnEnds xs around (ok event) s (contains w e k) =
      elim (Bool-cases (text_eq event.event_type (codes "SHUTDOWN"))) [
        | inl shut ↦
            rw (shut, e)
              (last_drain xs around s (drain_once L N (around 1) w)
                (drain_once-Drains (xs ++ comes (around 0)) (around 1) w k))
        | inr up ↦ rw up (contains w e k)
      ]

  first_drain :
      (xs : List Bytes) (around : ℕ → Around) (s : System L N) (r : Run (Worker L))
      → Drains (xs ++ comes (around 0)) r
      → TurnEnds xs around
          (r >>= (λ w. returns (record s { consumer = some w })) >>= await_event L N (around 1))
  first_drain xs around s (returns w) h =
      after_event-TurnEnds xs around (next_event N s.api).0
        (record s { consumer = some w; api = (next_event N s.api).1 }) (contains w refl h)
  first_drain xs around s blocks h = (comes (around 0), once, h)
  first_drain xs around s panics h = tt
  first_drain xs around s diverges h = h

  process_turn-TurnEnds :
      (cfg : LambdaExtensionConfig) (xs : List Bytes) (b : Bool) (around : ℕ → Around)
      (s : System L N)
      → b ≡ false
      → Contains xs s
      → TurnEnds xs around (process_turn L N cfg false b around s)
  unfolding process_turn
  process_turn-TurnEnds cfg xs true around s f k = cc
  process_turn-TurnEnds cfg xs false around s f (contains w e k) =
      rw e (
        first_drain xs around s (drain_once L N (around 0) w) (drain_once-Drains xs (around 0) w k))

  -- How the loop ends with these messages before it: it panics; or it goes on or stops, and the messages
  -- that came until then are accounted for; or it waits for ever, and they are more than fit.
  abbrev pub Accounted : List Bytes → List Turn → Run (Next L N) → Type 0
  Accounted xs ts (returns (goes_on u)) = Contains (xs ++ arrivals ts) u
  Accounted xs ts (returns (stops u)) = (ys : List Bytes) × Came ts ys × Contains (xs ++ ys) u
  Accounted xs ts blocks = (ys : List Bytes) × Came ts ys × (n < length (xs ++ ys))
  Accounted xs ts panics = Unit
  Accounted xs ts diverges = ⊥

  later-Accounted :
      (xs : List Bytes) (t : Turn) (ts : List Turn) (r : Run (Next L N))
      → Accounted (xs ++ comes (t.around 0)) ts r
      → Accounted xs (t ∷ ts) r
  later-Accounted xs t ts (returns (goes_on u)) h =
      subst (λ l. Contains l u) (append_assoc xs (comes (t.around 0)) (arrivals ts)) h
  later-Accounted xs t ts (returns (stops u)) (ys, c, k) = (
    comes (t.around 0) ++ ys,
    in_later t ts c,
    subst (λ l. Contains l u) (append_assoc xs (comes (t.around 0)) ys) k,
  )
  later-Accounted xs t ts blocks (ys, c, k) = (
    comes (t.around 0) ++ ys,
    in_later t ts c,
    subst (λ l. n < length l) (append_assoc xs (comes (t.around 0)) ys) k,
  )
  later-Accounted xs t ts panics h = h
  later-Accounted xs t ts diverges h = h

  -- In standard mode, from an open queue, for any sender and API, whatever the handlers get, and while the
  -- context is not done: the loop of `processEvents`, over any turns, panics; or it goes on or stops, and
  -- of the messages at its start and all that came until then each is in the queue, with a handler that
  -- waits, or in a batch that a call of `SendAllLogs` sent, as often as it came; or it waits for ever in
  -- some turn, and those messages, with all that comes in that turn, are more than the queue's capacity.
  pub process_loop-Accounted :
      (cfg : LambdaExtensionConfig) (xs : List Bytes) (ts : List Turn) (s : System L N)
      → All (λ (t : Turn). t.cancelled ≡ false) ts
      → Contains xs s
      → Accounted xs ts (process_loop L N cfg false ts s)
  unfolding process_loop
  process_loop-Accounted cfg xs [] s a k = subst (λ l. Contains l s) (sym (append-nil xs)) k
  process_loop-Accounted cfg xs (t ∷ ts) s a k =
      next (process_turn L N cfg false t.cancelled t.around s)
        (λ u. process_loop-Accounted cfg (xs ++ comes (t.around 0)) ts u a.1)
        (process_turn-TurnEnds cfg xs t.cancelled t.around s a.0 k)
    where
      next :
          (r : Run (Next L N))
          → ((u : System L N)
              → Contains (xs ++ comes (t.around 0)) u
              → Accounted (xs ++ comes (t.around 0)) ts (process_loop L N cfg false ts u))
          → TurnEnds xs t.around r
          → Accounted xs (t ∷ ts) (
              r >>= λ n. elim n [
                | goes_on u ↦ process_loop L N cfg false ts u
                | stops u ↦ returns (stops u)
              ])
      next (returns (goes_on u)) again h =
          later-Accounted xs t ts (process_loop L N cfg false ts u) (again u h)
      next (returns (stops u)) again (ys, c, h) = (ys, in_first t ts c, h)
      next blocks again (ys, c, h) = (ys, in_first t ts c, h)
      next panics again h = tt
      next diverges again h = h
