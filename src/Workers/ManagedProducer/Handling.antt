-- ===== src/Workers/ManagedProducer/Handling.antt =====
-- One request to the server of the managed instance mode.
use sumologic_lambda_extensi.Base.{
  ℕ, ◌≤◌, ◌<◌, ◌≡◌, refl, ◌≢◌, ◌∙◌, subst, sym, ◌⊎◌, inl, inr, Bool, true, false, none, List,
  key_eq, leb, length, Bool-cases, Option-cases, Result, ok, err, arith,
}
use sumologic_lambda_extensi.SumoClient.Services.{Bytes}
use sumologic_lambda_extensi.Workers.Channel.{Channel, try_send, OnReturn}
use sumologic_lambda_extensi.Workers.Consumer.Draining.{IsOpen}
use sumologic_lambda_extensi.Workers.Producer.{Incoming, status_ok}
use sumologic_lambda_extensi.Workers.ManagedProducer.{
  Event, Server, threshold, check_queue_threshold, signal_events, queue_body, managed_logs_handler,
}
use sumologic_lambda_extensi.Workers.ManagedProducer.Signals.{
  OnReturn-bind, OnReturn-map, Offered, try_send-Offered, Signalled-refl, Ready, Signalled-Ready,
  Signals, if-Signals, IsPending, has_report, signal_reports-Signals,
}

-- The queue has reached its threshold.
abbrev pub IsHigh : Server → Type 0
IsHigh s = threshold s.data_queue.capacity ≤ length s.data_queue.buffer

abbrev pub reports_in : Result (List Event) → Bool
reports_in (ok es) = has_report es
reports_in (err e) = false

check_queue_threshold-Signals :
    (s : Server) → Ready s → OnReturn (Signals (IsHigh s) s) (check_queue_threshold s)
unfolding check_queue_threshold
check_queue_threshold-Signals s r =
    OnReturn-map
      {P = Signals (leb (threshold s.data_queue.capacity) (length s.data_queue.buffer) ≡ true) s}
      {Q = Signals (IsHigh s) s} (check_queue_threshold s)
      (λ t h. (h.0, λ high. h.1 (ground arith)))
      (if-Signals (leb (threshold s.data_queue.capacity) (length s.data_queue.buffer))
        "queue_threshold" s r)

signal_events-Signals :
    (es : Result (List Event)) (s : Server)
    → Ready s
    → OnReturn (Signals (reports_in es ≡ true) s) (signal_events es s)
signal_events-Signals (ok es) s r = signal_reports-Signals es s r
signal_events-Signals (err e) s r = (Signalled-refl s r.0, λ h. cc)

module _ (unmarshal_events : Bytes → Result (List Event)) where
  -- What the handling of a body leaves: the body at the end of the data queue, or that queue full as it
  -- was; open channels; and a signal, if the queue is at its threshold or the body holds a report.
  pub record Handled (body : Bytes) (s t : Server) : Type 0 where
    pub queue : Offered body s.data_queue t.data_queue
    pub signals : IsOpen t.flush_signal
    pub capacity : t.flush_signal.capacity ≡ s.flush_signal.capacity
    pub more : length s.flush_signal.buffer ≤ length t.flush_signal.buffer
    pub high : IsHigh t → IsPending t
    pub report : reports_in (unmarshal_events body) ≡ true → IsPending t

  queue_body-Handled :
      (body : Bytes) (s : Server)
      → Ready s
      → s.data_queue.closed ≡ false
      → OnReturn (λ r. (r.0 ≡ status_ok) × Handled body s r.1) (queue_body unmarshal_events body s)
  unfolding queue_body
  queue_body-Handled body s r o =
      OnReturn-bind (λ q. Offered body s.data_queue q.1) _ (try_send body s.data_queue) _
        (try_send-Offered body s.data_queue o)
        λ q offered.
          let s0 : Server = record s { data_queue = q.1 } in
          OnReturn-bind (Signals (IsHigh s0) s0) _ (check_queue_threshold s0) _
            (check_queue_threshold-Signals s0 r)
            λ s1 a.
              OnReturn-bind (Signals (reports_in (unmarshal_events body) ≡ true) s1) _
                (signal_events (unmarshal_events body) s1) _
                (signal_events-Signals (unmarshal_events body) s1 (Signalled-Ready {s = s0} r a.0))
                λ s2 b.
                  let same : s2.data_queue ≡ q.1 = b.0.data_queue ∙ a.0.data_queue in
                  (
                    refl,
                    record {
                      queue = subst (Offered body s.data_queue) (sym same) offered;
                      signals = b.0.signals;
                      capacity = b.0.capacity ∙ a.0.capacity;
                      more = omega (arith, a.0.more, b.0.more);
                      high = λ h. omega (
                        arith,
                        b.0.more,
                        a.1 (
                            subst (λ (c : Channel Bytes). threshold c.capacity ≤ length c.buffer)
                              same h),
                      );
                      report = b.1;
                    },
                  )

  -- The server between two requests: open channels within their capacities, and room for a signal.
  pub record IsRunning (s : Server) : Type 0 where
    pub queue : IsOpen s.data_queue
    pub signals : IsOpen s.flush_signal
    pub room : 0 < s.flush_signal.capacity

  managed_logs_handler_post :
      (request : Incoming) (s : Server)
      → key_eq request.path "/" ≡ true
      → key_eq request.method "POST" ≡ true
      → request.read_error ≡ none
      → managed_logs_handler unmarshal_events request s ≡ queue_body unmarshal_events request.body s
  unfolding managed_logs_handler
  managed_logs_handler_post request s path method read = ground arith

  -- The two ways to answer.
  abbrev pub Answered : Incoming → Server → ℕ × Server → Type 0
  Answered request s r =
      ((r.0 ≡ status_ok) × Handled request.body s r.1)
      ⊎ ((r.0 ≢ status_ok)
          × (r.1 ≡ s)
          × ((key_eq request.path "/" ≡ false)
              ⊎ (key_eq request.method "POST" ≡ false)
              ⊎ (request.read_error ≢ none)))

  -- The handler always returns. It either answers 200 and has handled the body, or answers another
  -- status and has changed nothing, and then the path is not "/", the method is not POST, or the body
  -- could not be read.
  pub managed_logs_handler-Answered :
      (request : Incoming) (s : Server)
      → IsRunning s
      → OnReturn (Answered request s) (managed_logs_handler unmarshal_events request s)
  unfolding managed_logs_handler
  managed_logs_handler-Answered request s v = elim (Bool-cases (key_eq request.path "/")) [
    | inr path ↦ rw path (inr (omega arith, refl, inl path))
    | inl path ↦ elim (Bool-cases (key_eq request.method "POST")) [
      | inr method ↦ rw (path, method) (inr (omega arith, refl, inr (inl method)))
      | inl method ↦ elim (Option-cases request.read_error) [
        | inr (e, read) ↦ rw (path, method, read) (inr (omega arith, refl, inr (inr (λ none'. cc))))
        | inl read ↦ rw (managed_logs_handler_post request s path method read) (
            OnReturn-map {P = λ (r : ℕ × Server). (r.0 ≡ status_ok) × Handled request.body s r.1}
              {Q = Answered request s} (queue_body unmarshal_events request.body s) (λ r h. inl h)
              (queue_body-Handled request.body s (v.signals, v.room) v.queue.open'))
      ]
    ]
  ]
