-- ===== src/Workers/ManagedLoop/Together.antt =====
-- The handler and the goroutine together, with a sender that succeeds: no signal is missing.
use sumologic_lambda_extensi.Base.{
  ℕ, ◌<◌, ◌≡◌, refl, ◌≢◌, ap, sym, subst, ◌⊎◌, inl, inr, Option, none, some, List, [], ◌∷◌, ◌++◌,
  String, leb, length, All, Bool-cases, Error, Result, arith,
}
use sumologic_lambda_extensi.Config.Defs.{LambdaExtensionConfig}
use sumologic_lambda_extensi.SumoClient.Services.{Bytes}
use sumologic_lambda_extensi.SumoClient.Enhance.{Outcome, done, panic}
use sumologic_lambda_extensi.Workers.Channel.{
  Run, returns, blocks, panics, diverges, Channel, OnReturn,
}
use sumologic_lambda_extensi.Workers.Sender.{LogSender}
use sumologic_lambda_extensi.Workers.Consumer.Draining.{IsOpen, push-IsOpen}
use sumologic_lambda_extensi.Workers.Producer.{Incoming}
use sumologic_lambda_extensi.Workers.ManagedProducer.{
  Event, Server, threshold, managed_logs_handler,
}
use sumologic_lambda_extensi.Workers.ManagedProducer.Signals.{
  OnReturn-bind, OnReturn-map, Offered, IsPending,
}
use sumologic_lambda_extensi.Workers.ManagedProducer.Handling.{
  IsHigh, IsRunning, Answered, managed_logs_handler-Answered,
}
use sumologic_lambda_extensi.Workers.ManagedLoop.{Managed, Action, request, wake, act, act_all}
use sumologic_lambda_extensi.Workers.ManagedLoop.Serving.{
  IsSignal, IsNamed, managed_logs_handler-IsNamed,
}
use sumologic_lambda_extensi.Workers.ManagedLoop.Waking.{
  woken, wake-nil, wake-woken, wake-no_messages,
}

OnReturn-both :
    {A : Type 0} (P Q : A → Type 0) (m : Run A)
    → OnReturn P m
    → OnReturn Q m
    → OnReturn (λ a. P a × Q a) m
OnReturn-both P Q (returns a) p q = (p, q)
OnReturn-both P Q blocks p q = p
OnReturn-both P Q panics p q = p
OnReturn-both P Q diverges p q = p

Offered-IsOpen : (m : Bytes) (c d : Channel Bytes) → IsOpen c → Offered m c d → IsOpen d
Offered-IsOpen m c d o (inl (room, e)) = subst IsOpen (sym e) (push-IsOpen c m o room)
Offered-IsOpen m c d o (inr (full, e)) = subst IsOpen (sym e) o

List-cases : {A : Type 0} (xs : List A) → (xs ≡ []) ⊎ ((x : A) × (rest : List A) × (xs ≡ x ∷ rest))
List-cases [] = inl refl
List-cases (x ∷ rest) = inr (x, rest, refl)

module _ (L : LogSender) (unmarshal_events : Bytes → Result (List Event))
    (cfg : LambdaExtensionConfig) where
  -- Every call of `SendAllLogs` returns with no error.
  abbrev pub Succeeds : Type 0
  Succeeds = (ms : List Bytes) (t : L.State) → (L.send_all_logs ms t).0 ≡ done none

  -- A running server, known signals, and a signal for the consumer if the queue is at its threshold and
  -- not empty.
  pub record IsServed (s : Managed L) : Type 0 where
    pub running : IsRunning unmarshal_events s.server
    pub names : All IsSignal s.server.flush_signal.buffer
    pub pending : IsHigh s.server → s.server.data_queue.buffer ≢ [] → IsPending s.server

  behind_handler-IsServed :
      (r : Incoming) (s : Managed L) (a : ℕ × Server)
      → IsServed s
      → Answered unmarshal_events r s.server a
      → IsNamed a.1
      → IsServed (record s { server = a.1 })
  behind_handler-IsServed r s (status, t) v (inl (_, h)) n = record {
    running = record {
      queue = Offered-IsOpen r.body s.server.data_queue t.data_queue v.running.queue h.queue;
      signals = h.signals;
      room = omega (arith, h.capacity, v.running.room);
    };
    names = n.0;
    pending = λ high some'. h.high high;
  }
  behind_handler-IsServed r s (status, t) v (inr (_, e, _)) n =
      subst (λ (u : Server). IsServed (record s { server = u })) (sym e) v

  request-IsServed :
      (r : Incoming) (s : Managed L)
      → IsServed s
      → OnReturn IsServed (act L unmarshal_events cfg (request r) s)
  unfolding act
  request-IsServed r s v =
      OnReturn-bind (λ a. Answered unmarshal_events r s.server a × IsNamed a.1) IsServed
        (managed_logs_handler unmarshal_events r s.server) _
        (OnReturn-both (Answered unmarshal_events r s.server) (λ a. IsNamed a.1) _
          (managed_logs_handler-Answered unmarshal_events r s.server v.running)
          (managed_logs_handler-IsNamed unmarshal_events r s.server
            (v.names, v.running.signals.open') v.running.queue.open'))
        (λ a p. behind_handler-IsServed r s a v p.0 p.1)

  -- The queue is empty or below its threshold.
  abbrev pub IsLow : Managed L → Type 0
  IsLow s =
      (s.server.data_queue.buffer ≡ [])
      ⊎ (length s.server.data_queue.buffer < threshold s.server.data_queue.capacity)

  quiet-IsLow : (s : Managed L) → IsServed s → s.server.flush_signal.buffer ≡ [] → IsLow s
  quiet-IsLow s v b = elim (List-cases s.server.data_queue.buffer) [
    | inl none' ↦ inl none'
    | inr (m, ms, some') ↦
        elim (Bool-cases
          (leb (threshold s.server.data_queue.capacity) (length s.server.data_queue.buffer))) [
            | inl high ↦ absurd (no_signal (v.pending (ground (arith, high)) (λ none'. cc)))
            | inr low ↦ inr (ground (arith, low))
          ]
  ]
    where
      no_signal : IsPending s.server → ⊥
      no_signal h = omega (arith, ap (λ l. length l) b)

  -- After a turn that emptied the queue.
  emptied-IsServed :
      (s : Managed L) (name : String) (names : List String) (q : Channel Bytes) (t : L.State)
      → IsServed s
      → s.server.flush_signal.buffer ≡ name ∷ names
      → IsOpen q
      → q.buffer ≡ []
      → IsServed (record {
        server = record {
          data_queue = q;
          flush_signal = record s.server.flush_signal { buffer = names };
        };
        sender = t;
      })
  emptied-IsServed s name names q t v b o none' = record {
    running = record {
      queue = o;
      signals = record {
        open' = v.running.signals.open';
        fits = omega (arith, v.running.signals.fits, ap (λ l. length l) b);
      };
      room = v.running.room;
    };
    names = (subst (All IsSignal) b v.names).1;
    pending = λ high some'. absurd (some' none');
  }

  woken-IsServed :
      (s : Managed L) (name : String) (names : List String) (r : Outcome (Option Error) × L.State)
      → IsServed s
      → s.server.flush_signal.buffer ≡ name ∷ names
      → r.0 ≡ done none
      → OnReturn (λ t. IsServed t × IsLow t) (woken L names s r)
  woken-IsServed s name names (panic, t) v b h = cc
  woken-IsServed s name names (done none, t) v b h = (
    emptied-IsServed s name names (record s.server.data_queue { buffer = [] }) t v b
        (record { open' = v.running.queue.open'; fits = omega arith }) refl,
    inl refl,
  )
  woken-IsServed s name names (done (some e), t) v b h = cc

  wake-IsServed :
      (s : Managed L)
      → Succeeds
      → IsServed s
      → OnReturn (λ t. IsServed t × IsLow t) (act L unmarshal_events cfg wake s)
  wake-IsServed s ok' v = elim (List-cases s.server.flush_signal.buffer) [
    | inl b ↦
        rw (wake-nil L unmarshal_events cfg s b v.running.signals.open') (v, quiet-IsLow s v b)
    | inr (name, names, b) ↦
        let n = (subst (All IsSignal) b v.names).0 in
        elim (List-cases s.server.data_queue.buffer) [
          | inl none' ↦
              rw (wake-no_messages L unmarshal_events cfg s name names b n v.running.queue none') (
                emptied-IsServed s name names s.server.data_queue s.sender v b v.running.queue
                    none',
                inl none',
              )
          | inr (m, ms, some') ↦
              rw (wake-woken L unmarshal_events cfg s name names b n v.running.queue (λ none'. cc))
                (woken-IsServed s name names _ v b (ok' s.server.data_queue.buffer s.sender))
        ]
  ]

  act-IsServed :
      (a : Action) (s : Managed L)
      → Succeeds
      → IsServed s
      → OnReturn IsServed (act L unmarshal_events cfg a s)
  act-IsServed (request r) s ok' v = request-IsServed r s v
  act-IsServed wake s ok' v =
      OnReturn-map {P = λ t. IsServed t × IsLow t} {Q = IsServed} _ (λ t h. h.0)
        (wake-IsServed s ok' v)

  -- While every call of `SendAllLogs` succeeds, over any requests and any turns of the goroutine the
  -- process neither waits, panics nor spins, and this is kept: both channels are open and within their
  -- capacities, the channel of signals has only those that the goroutine knows, and it has one whenever
  -- the queue is at its threshold and not empty.
  pub act_all-IsServed :
      (as' : List Action) (s : Managed L)
      → Succeeds
      → IsServed s
      → OnReturn IsServed (act_all L unmarshal_events cfg as' s)
  unfolding act_all
  act_all-IsServed [] s ok' v = v
  act_all-IsServed (a ∷ as') s ok' v =
      OnReturn-bind IsServed IsServed (act L unmarshal_events cfg a s) _ (act-IsServed a s ok' v)
        (λ t w. act_all-IsServed as' t ok' w)

  -- While every call of `SendAllLogs` succeeds, and from a server with open channels, known signals, and
  -- one of them if the queue is at its threshold and not empty: over any requests and any turns of the
  -- goroutine, one turn more returns and leaves the queue empty or below its threshold.
  pub act_all-IsLow :
      (as' : List Action) (s : Managed L)
      → Succeeds
      → IsServed s
      → OnReturn IsLow (act_all L unmarshal_events cfg (as' ++ wake ∷ []) s)
  unfolding act_all
  act_all-IsLow [] s ok' v =
      OnReturn-bind (λ t. IsServed t × IsLow t) IsLow (act L unmarshal_events cfg wake s) _
        (wake-IsServed s ok' v) (λ t h. h.1)
  act_all-IsLow (a ∷ as') s ok' v =
      OnReturn-bind IsServed IsLow (act L unmarshal_events cfg a s) _ (act-IsServed a s ok' v)
        (λ t w. act_all-IsLow as' t ok' w)
