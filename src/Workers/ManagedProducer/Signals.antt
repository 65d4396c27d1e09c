-- ===== src/Workers/ManagedProducer/Signals.antt =====
-- The handler of the managed instance mode always returns, and what it leaves in the two channels.
use sumologic_lambda_extensi.Base.{
  ◌+◌, ◌≤◌, ◌<◌, ◌≡◌, refl, ◌∙◌, ap, ◌⊎◌, inl, inr, Bool, true, false, ◌||◌, List, [], ◌∷◌, String,
  ltb, length, length-append, if◌then◌else◌, Bool-cases, arith, tests,
}
use sumologic_lambda_extensi.Base.Text.{codes, text_eq}
use sumologic_lambda_extensi.Workers.Channel.{
  Run, returns, blocks, panics, diverges, Channel, push, try_send, OnReturn,
}
use sumologic_lambda_extensi.Workers.Consumer.{◌>>=◌}
use sumologic_lambda_extensi.Workers.Consumer.Draining.{IsOpen}
use sumologic_lambda_extensi.Workers.ManagedProducer.{Event, Server, signal, signal_reports}

pub OnReturn-bind :
    {A B : Type 0} (P : A → Type 0) (Q : B → Type 0) (m : Run A) (f : A → Run B)
    → OnReturn P m
    → ((a : A) → P a → OnReturn Q (f a))
    → OnReturn Q (m >>= f)
OnReturn-bind P Q (returns a) f h k = k a h
OnReturn-bind P Q blocks f h k = h
OnReturn-bind P Q panics f h k = h
OnReturn-bind P Q diverges f h k = h

pub OnReturn-map :
    {A : Type 0} {P Q : A → Type 0} (m : Run A)
    → ((a : A) → P a → Q a)
    → OnReturn P m
    → OnReturn Q m
OnReturn-map (returns a) f h = f a h
OnReturn-map blocks f h = h
OnReturn-map panics f h = h
OnReturn-map diverges f h = h

-- What a send with a `default` case leaves: the value at the end, or a full channel as it was.
abbrev pub Offered : {A : Type 0} → A → Channel A → Channel A → Type 0
Offered a c c' =
    ((length c.buffer < c.capacity) × (c' ≡ push c a)) ⊎ ((c.capacity ≤ length c.buffer) × (c' ≡ c))

module _ {A : Type 0} (a : A) (c : Channel A) (o : c.closed ≡ false) where
  try_send_room : length c.buffer < c.capacity → try_send a c ≡ returns (true, push c a)
  unfolding try_send
  try_send_room h = ground arith

  try_send_full : c.capacity ≤ length c.buffer → try_send a c ≡ returns (false, c)
  unfolding try_send
  try_send_full h = ground arith

  pub try_send-Offered : OnReturn (λ r. Offered a c r.1) (try_send a c)
  try_send-Offered = elim (Bool-cases (ltb (length c.buffer) c.capacity)) [
    | inl room ↦ rw (try_send_room (omega (tests, room))) (inl (omega (tests, room), refl))
    | inr full ↦ rw (try_send_full (omega (tests, full))) (inr (omega (tests, full), refl))
  ]

-- The signals of `t` are those of `s`, and perhaps more; nothing else changed.
pub record Signalled (s t : Server) : Type 0 where
  pub data_queue : t.data_queue ≡ s.data_queue
  pub signals : IsOpen t.flush_signal
  pub capacity : t.flush_signal.capacity ≡ s.flush_signal.capacity
  pub more : length s.flush_signal.buffer ≤ length t.flush_signal.buffer

-- Some signal waits for the consumer.
abbrev pub IsPending : Server → Type 0
IsPending s = 0 < length s.flush_signal.buffer

pub Signalled-refl : (s : Server) → IsOpen s.flush_signal → Signalled s s
Signalled-refl s o = record { data_queue = refl; signals = o; capacity = refl; more = omega arith }

pub Signalled-trans : {s t u : Server} → Signalled s t → Signalled t u → Signalled s u
Signalled-trans a b = record {
  data_queue = b.data_queue ∙ a.data_queue;
  signals = b.signals;
  capacity = b.capacity ∙ a.capacity;
  more = omega (arith, a.more, b.more);
}

Offered-Signalled :
    (name : String) (s : Server) (d : Channel String)
    → IsOpen s.flush_signal
    → 0 < s.flush_signal.capacity
    → Offered name s.flush_signal d
    → Signalled s (record s { flush_signal = d }) × IsPending (record s { flush_signal = d })
Offered-Signalled name s d o h (inl (room, e)) =
    let n = length-append s.flush_signal.buffer (name ∷ []) in
    let l : length d.buffer ≡ length s.flush_signal.buffer + 1 = ap (λ c. length c.buffer) e ∙ n in
    let k : d.capacity ≡ s.flush_signal.capacity = ap (λ c. c.capacity) e in
    (
      record {
        data_queue = refl;
        signals = record { open' = ap (λ c. c.closed) e ∙ o.open'; fits = omega arith };
        capacity = k;
        more = omega arith;
      },
      omega arith,
    )
Offered-Signalled name s d o h (inr (full, e)) =
    let l : length d.buffer ≡ length s.flush_signal.buffer = ap (λ c. length c.buffer) e in
    let k : d.capacity ≡ s.flush_signal.capacity = ap (λ c. c.capacity) e in
    (
      record {
        data_queue = refl;
        signals = record { open' = ap (λ c. c.closed) e ∙ o.open'; fits = omega (arith, o.fits) };
        capacity = k;
        more = omega arith;
      },
      omega arith,
    )

-- What the senders of signals need, and keep.
abbrev pub Ready : Server → Type 0
Ready s = IsOpen s.flush_signal × (0 < s.flush_signal.capacity)

pub Signalled-Ready : {s t : Server} → Ready s → Signalled s t → Ready t
Signalled-Ready r v = (v.signals, omega (arith, v.capacity, r.1))

abbrev pub Signals : Type 0 → Server → Server → Type 0
Signals P s t = Signalled s t × (P → IsPending t)

signal-Signals :
    (name : String) (s : Server) → Ready s → OnReturn (Signals (Unit {0}) s) (signal name s)
unfolding signal
signal-Signals name s r =
    OnReturn-bind (λ q. Offered name s.flush_signal q.1) (Signals (Unit {0}) s)
      (try_send name s.flush_signal) _ (try_send-Offered name s.flush_signal (r.0).open')
      (λ q h. let w = Offered-Signalled name s q.1 r.0 r.1 h in (w.0, λ _. w.1))

pub if-Signals :
    (b : Bool) (name : String) (s : Server)
    → Ready s
    → OnReturn (Signals (b ≡ true) s) (if b then signal name s else returns s)
if-Signals true name s r =
    OnReturn-map (signal name s) (λ t h. (h.0, λ _. h.1 tt)) (signal-Signals name s r)
if-Signals false name s r = (Signalled-refl s r.0, λ h. cc)

-- Whether an event of the type "platform.report" is among these.
unfoldable pub has_report : List Event → Bool
has_report [] = false
has_report (e ∷ es) = text_eq e.type (codes "platform.report") || has_report es

pub signal_reports-Signals :
    (es : List Event) (s : Server)
    → Ready s
    → OnReturn (Signals (has_report es ≡ true) s) (signal_reports es s)
unfolding signal_reports has_report
signal_reports-Signals [] s r = (Signalled-refl s r.0, λ h. cc)
signal_reports-Signals (e ∷ es) s r =
    let b = text_eq e.type (codes "platform.report") in
    OnReturn-bind (Signals (b ≡ true) s) (Signals ((b || has_report es) ≡ true) s) _
      (signal_reports es) (if-Signals b "platform.report" s r)
      (λ t h.
        OnReturn-map (signal_reports es t) (λ u k. (Signalled-trans h.0 k.0, pending b t u h.1 k))
          (signal_reports-Signals es t (Signalled-Ready r h.0)))
  where
    pending :
        (b : Bool) (t u : Server)
        → (b ≡ true → IsPending t)
        → Signals (has_report es ≡ true) t u
        → (b || has_report es) ≡ true
        → IsPending u
    pending true t u h k _ = omega (arith, h refl, k.0.more)
    pending false t u h k p = k.1 p
