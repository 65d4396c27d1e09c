-- ===== src/Workers/Interleaving/Progress.antt =====
-- Where the consumer's goroutine comes to from any point of a drain, if no handler moves meanwhile.
use sumologic_lambda_extensi.Base.{
  ◌≤◌, ◌<◌, ◌≡◌, refl, ◌∙◌, ap, true, false, Bool-cases, inl, inr, Option, none, some, List, [],
  ◌∷◌, ◌++◌, length, ltb, Error, arith,
}
use sumologic_lambda_extensi.SumoClient.Services.{Bytes}
use sumologic_lambda_extensi.SumoClient.Enhance.{Outcome, done, panic}
use sumologic_lambda_extensi.Workers.Channel.{Channel, push, try_send, receive_from, value, nothing}
use sumologic_lambda_extensi.Workers.Consumer.Draining.{IsOpen, push-IsOpen}
use sumologic_lambda_extensi.Workers.Sender.{LogSender}
use sumologic_lambda_extensi.Workers.Interleaving.{
  Mode, standard, managed, Offers, dropped, Phase, idle, receiving, sending, putting_back, crashed,
  after_default, System, answered, Step, receive, receive_nothing, answer, put, finish, Reach, here,
  next,
}
use sumologic_lambda_extensi.Workers.Interleaving.Runs.{room-Offers, Reach-trans}
use sumologic_lambda_extensi.Workers.Interleaving.Deadlock.{IsFull}

full_lem :
    (q : Channel Bytes) → ltb (length q.buffer) q.capacity ≡ false → q.capacity ≤ length q.buffer
full_lem q h = ground arith

room_lem :
    (q : Channel Bytes) → ltb (length q.buffer) q.capacity ≡ true → length q.buffer < q.capacity
room_lem q h = ground arith

full-Offers :
    (m : Bytes) (q : Channel Bytes)
    → q.closed ≡ false
    → ltb (length q.buffer) q.capacity ≡ false
    → Offers m q q managed (m ∷ [])
unfolding try_send
full-Offers m q o h = dropped (ground arith)

found :
    (q : Channel Bytes) (m : Bytes) (xs : List Bytes)
    → q.buffer ≡ m ∷ xs
    → receive_from q.buffer q ≡ value m (record q { buffer = xs })
found q m xs b = ap (λ l. receive_from l q) b

found_nothing : (q : Channel Bytes) → IsOpen q → q.buffer ≡ [] → receive_from q.buffer q ≡ nothing
found_nothing q o b = ap (λ l. receive_from l q) b ∙ ground (arith, o.open')

module _ (L : LogSender) (mode : Mode) where
  -- A run in which no message arrives and no handler moves.
  pub record Alone (s u : System L) : Type 0 where
    pub reach : Reach L mode s u
    pub arrived : u.arrived ≡ s.arrived
    pub handlers : u.handlers ≡ s.handlers

  -- The consumer alone comes to rest, panics, or waits for room that nobody else makes.
  pub data Settles (s : System L) : Type 0 where
    rests : (u : System L) → Alone s u → u.phase ≡ idle → Settles s
    crashes : (u : System L) (got : List Bytes) → Alone s u → u.phase ≡ crashed got → Settles s
    stuck :
        (u : System L) (m : Bytes) (rest : List Bytes)
        → Alone s u
        → u.phase ≡ putting_back (m ∷ rest)
        → IsFull u.queue
        → mode ≡ standard
        → Settles s

  Step-Alone :
      {s t u : System L}
      → Step L mode s t
      → t.arrived ≡ s.arrived
      → t.handlers ≡ s.handlers
      → Alone t u
      → Alone s u
  Step-Alone st a h k = record {
    reach = Reach-trans L mode (next here st) k.reach;
    arrived = k.arrived ∙ a;
    handlers = k.handlers ∙ h;
  }

  Step-Settles :
      {s t : System L}
      → Step L mode s t
      → t.arrived ≡ s.arrived
      → t.handlers ≡ s.handlers
      → Settles t
      → Settles s
  Step-Settles st a h (rests u k e) = rests u (Step-Alone st a h k) e
  Step-Settles st a h (crashes u got k e) = crashes u got (Step-Alone st a h k) e
  Step-Settles st a h (stuck u m rest k e f w) = stuck u m rest (Step-Alone st a h k) e f w

  Alone-refl : (s : System L) → Alone s s
  Alone-refl s = record { reach = here; arrived = refl; handlers = refl }

module _ (L : LogSender) where
  putting_back-Settles :
      (mode : Mode) (ms : List Bytes) (s : System L)
      → s.phase ≡ putting_back ms
      → IsOpen s.queue
      → Settles L mode s
  putting_back-Settles mode [] s f o =
      Step-Settles L mode (finish f) refl refl
        (rests (record s { phase = idle }) (Alone-refl L mode _) refl)
  putting_back-Settles mode (m ∷ ms) s f o =
      elim (Bool-cases (ltb (length s.queue.buffer) s.queue.capacity)) [
        | inl room ↦
            Step-Settles L mode
              (put m ms f (room-Offers mode m s.queue o.open' (room_lem s.queue room))) refl refl
              (putting_back-Settles mode ms
                (record s { queue = push s.queue m; phase = putting_back ms; lost = s.lost ++ [] })
                refl (push-IsOpen s.queue m o (room_lem s.queue room)))
        | inr full ↦ no_room mode full λ e.
            putting_back-Settles managed ms
              (record s { phase = putting_back ms; lost = s.lost ++ m ∷ [] }) refl o
      ]
    where
      no_room :
          (k : Mode)
          → ltb (length s.queue.buffer) s.queue.capacity ≡ false
          → (k ≡ managed
              → Settles L managed (record s { phase = putting_back ms; lost = s.lost ++ m ∷ [] }))
          → Settles L k s
      no_room standard full again =
          stuck s m ms (Alone-refl L standard s) f
            (record { open' = o.open'; full = full_lem s.queue full }) refl
      no_room managed full again =
          Step-Settles L managed (put m ms f (full-Offers m s.queue o.open' full)) refl refl
            (again refl)

  answered-Settles :
      (mode : Mode) (got : List Bytes) (r : Outcome (Option Error) × L.State) (s : System L)
      → IsOpen s.queue
      → Settles L mode (answered L got r s)
  answered-Settles mode got (panic, t) s o =
      crashes (answered L got (panic, t) s) got (Alone-refl L mode _) refl
  answered-Settles mode got (done none, t) s o =
      rests (answered L got (done none, t) s) (Alone-refl L mode _) refl
  answered-Settles mode got (done (some e), t) s o =
      putting_back-Settles mode got (answered L got (done (some e), t) s) refl o

  answered-arrived :
      (got : List Bytes) (r : Outcome (Option Error) × L.State) (s : System L)
      → (answered L got r s).arrived ≡ s.arrived
  answered-arrived got (panic, t) s = refl
  answered-arrived got (done none, t) s = refl
  answered-arrived got (done (some e), t) s = refl

  answered-handlers :
      (got : List Bytes) (r : Outcome (Option Error) × L.State) (s : System L)
      → (answered L got r s).handlers ≡ s.handlers
  answered-handlers got (panic, t) s = refl
  answered-handlers got (done none, t) s = refl
  answered-handlers got (done (some e), t) s = refl

  sending-Settles :
      (mode : Mode) (got : List Bytes) (s : System L)
      → s.phase ≡ sending got
      → IsOpen s.queue
      → Settles L mode s
  sending-Settles mode got s f o =
      let r = L.send_all_logs got s.sender in
      Step-Settles L mode (answer got f) (answered-arrived got r s) (answered-handlers got r s)
        (answered-Settles mode got r s o)

  after_default-Settles :
      (mode : Mode) (got : List Bytes) (s : System L)
      → s.phase ≡ after_default mode got
      → IsOpen s.queue
      → Settles L mode s
  after_default-Settles standard got s f o = sending-Settles standard got s f o
  after_default-Settles managed [] s f o = rests s (Alone-refl L managed s) f
  after_default-Settles managed (m ∷ got) s f o = sending-Settles managed (m ∷ got) s f o

  receiving-Settles :
      (mode : Mode) (xs got : List Bytes) (s : System L)
      → s.phase ≡ receiving got
      → IsOpen s.queue
      → s.queue.buffer ≡ xs
      → Settles L mode s
  receiving-Settles mode [] got s f o b =
      Step-Settles L mode (receive_nothing got f (found_nothing s.queue o b)) refl refl
        (after_default-Settles mode got (record s { phase = after_default mode got }) refl o)
  receiving-Settles mode (m ∷ xs) got s f o b =
      Step-Settles L mode (receive got m f (found s.queue m xs b)) refl refl (
        receiving-Settles mode xs (got ++ m ∷ [])
          (record s { queue = record s.queue { buffer = xs }; phase = receiving (got ++ m ∷ []) })
          refl (record { open' = o.open'; fits = omega (arith, o.fits, ap (λ l. length l) b) })
          refl)

  phase-Settles :
      (mode : Mode) (f : Phase) (s : System L) → s.phase ≡ f → IsOpen s.queue → Settles L mode s
  phase-Settles mode idle s e o = rests s (Alone-refl L mode s) e
  phase-Settles mode (receiving got) s e o = receiving-Settles mode s.queue.buffer got s e o refl
  phase-Settles mode (sending got) s e o = sending-Settles mode got s e o
  phase-Settles mode (putting_back ms) s e o = putting_back-Settles mode ms s e o
  phase-Settles mode (crashed got) s e o = crashes s got (Alone-refl L mode s) e

  -- From every point of a drain, with the queue open and within its capacity, and whatever the handlers
  -- did before: if they do nothing more, a run of the consumer's steps alone leads to its rest, to a
  -- panic of the sender, or, in standard mode only, to a wait for room in a full queue. In managed
  -- instance mode the consumer is never stuck.
  pub drain-Settles : (mode : Mode) (s : System L) → IsOpen s.queue → Settles L mode s
  drain-Settles mode s o = phase-Settles mode s.phase s refl o
