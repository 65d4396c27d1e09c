-- ===== src/Workers/ManagedLoop/Serving.antt =====
-- The signals in the channel: the handler sends no others than the goroutine knows.
use sumologic_lambda_extensi.Base.{
  ◌≡◌, refl, ◌∙◌, ap, subst, sym, inl, inr, Bool, true, false, ◌||◌, List, [], ◌∷◌, ◌++◌, String,
  key_eq, leb, length, All, if◌then◌else◌, Bool-cases, Option-cases, Result, ok, err,
}
use sumologic_lambda_extensi.Base.Text.{codes, text_eq}
use sumologic_lambda_extensi.SumoClient.Services.{Bytes}
use sumologic_lambda_extensi.Workers.Channel.{returns, Channel, try_send, OnReturn}
use sumologic_lambda_extensi.Workers.Producer.{Incoming}
use sumologic_lambda_extensi.Workers.ManagedProducer.{
  Event, Server, threshold, signal, check_queue_threshold, signal_reports, signal_events,
  queue_body, managed_logs_handler,
}
use sumologic_lambda_extensi.Workers.ManagedProducer.Signals.{
  OnReturn-bind, Offered, try_send-Offered,
}

-- A signal on which the goroutine drains the queue.
abbrev pub IsSignal : String → Type 0
IsSignal name = (key_eq name "queue_threshold" || key_eq name "platform.report") ≡ true

abbrev pub IsNamed : Server → Type 0
IsNamed s = All IsSignal s.flush_signal.buffer × (s.flush_signal.closed ≡ false)

All-snoc :
    {A : Type 0} (P : A → Type 0) (xs : List A) (x : A) → All P xs → P x → All P (xs ++ x ∷ [])
All-snoc P [] x h p = (p, tt)
All-snoc P (y ∷ xs) x h p = (h.0, All-snoc P xs x h.1 p)

Offered-IsNamed :
    (name : String) (s : Server) (d : Channel String)
    → IsSignal name
    → IsNamed s
    → Offered name s.flush_signal d
    → IsNamed (record s { flush_signal = d })
Offered-IsNamed name s d n h (inl (room, e)) = (
  subst (λ (c : Channel String). All IsSignal c.buffer) (sym e)
      (All-snoc IsSignal s.flush_signal.buffer name h.0 n),
  ap (λ c. c.closed) e ∙ h.1,
)
Offered-IsNamed name s d n h (inr (full, e)) =
    (subst (λ (c : Channel String). All IsSignal c.buffer) (sym e) h.0, ap (λ c. c.closed) e ∙ h.1)

signal-IsNamed :
    (name : String) (s : Server) → IsSignal name → IsNamed s → OnReturn IsNamed (signal name s)
unfolding signal
signal-IsNamed name s n h =
    OnReturn-bind (λ q. Offered name s.flush_signal q.1) IsNamed (try_send name s.flush_signal) _
      (try_send-Offered name s.flush_signal h.1) (λ q o. Offered-IsNamed name s q.1 n h o)

if-IsNamed :
    (b : Bool) (name : String) (s : Server)
    → IsSignal name
    → IsNamed s
    → OnReturn IsNamed (if b then signal name s else returns s)
if-IsNamed true name s n h = signal-IsNamed name s n h
if-IsNamed false name s n h = h

signal_reports-IsNamed :
    (es : List Event) (s : Server) → IsNamed s → OnReturn IsNamed (signal_reports es s)
unfolding signal_reports
signal_reports-IsNamed [] s h = h
signal_reports-IsNamed (e ∷ es) s h =
    OnReturn-bind IsNamed IsNamed _ (signal_reports es)
      (if-IsNamed (text_eq e.type (codes "platform.report")) "platform.report" s refl h)
      (signal_reports-IsNamed es)

signal_events-IsNamed :
    (es : Result (List Event)) (s : Server) → IsNamed s → OnReturn IsNamed (signal_events es s)
signal_events-IsNamed (ok es) s h = signal_reports-IsNamed es s h
signal_events-IsNamed (err e) s h = h

check_queue_threshold-IsNamed :
    (s : Server) → IsNamed s → OnReturn IsNamed (check_queue_threshold s)
unfolding check_queue_threshold
check_queue_threshold-IsNamed s h =
    if-IsNamed (leb (threshold s.data_queue.capacity) (length s.data_queue.buffer))
      "queue_threshold" s refl h

module _ (unmarshal_events : Bytes → Result (List Event)) where
  queue_body-IsNamed :
      (body : Bytes) (s : Server)
      → IsNamed s
      → s.data_queue.closed ≡ false
      → OnReturn (λ r. IsNamed r.1) (queue_body unmarshal_events body s)
  unfolding queue_body
  queue_body-IsNamed body s h o =
      OnReturn-bind (λ q. Offered body s.data_queue q.1) _ (try_send body s.data_queue) _
        (try_send-Offered body s.data_queue o)
        λ q offered.
          OnReturn-bind IsNamed _ (check_queue_threshold (record s { data_queue = q.1 })) _
            (check_queue_threshold-IsNamed (record s { data_queue = q.1 }) h)
            λ s1 a.
              OnReturn-bind IsNamed _ (signal_events (unmarshal_events body) s1) _
                (signal_events-IsNamed (unmarshal_events body) s1 a) λ s2 b. b

  pub managed_logs_handler-IsNamed :
      (request : Incoming) (s : Server)
      → IsNamed s
      → s.data_queue.closed ≡ false
      → OnReturn (λ r. IsNamed r.1) (managed_logs_handler unmarshal_events request s)
  unfolding managed_logs_handler
  managed_logs_handler-IsNamed request s h o = elim (Bool-cases (key_eq request.path "/")) [
    | inr path ↦ rw path h
    | inl path ↦ elim (Bool-cases (key_eq request.method "POST")) [
      | inr method ↦ rw (path, method) h
      | inl method ↦ elim (Option-cases request.read_error) [
        | inr (e, read) ↦ rw (path, method, read) h
        | inl read ↦ rw (path, method, read) (queue_body-IsNamed request.body s h o)
      ]
    ]
  ]
