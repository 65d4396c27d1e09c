-- ===== src/Workers/Interleaving/Atomic.antt =====
-- A drain that runs with no handler in between is a run of the steps.
use sumologic_lambda_extensi.Base.{
  ℕ, ◌≡◌, refl, ◌∙◌, ap, sym, subst, Option, none, some, List, [], ◌∷◌, length, Error, arith,
}
use sumologic_lambda_extensi.SumoClient.Services.{Bytes}
use sumologic_lambda_extensi.SumoClient.Enhance.{Outcome, done, panic}
use sumologic_lambda_extensi.Workers.Channel.{
  Run, returns, panics, blocks, diverges, Channel, receive_from, nothing,
}
use sumologic_lambda_extensi.Workers.ChannelLaws.{emptied}
use sumologic_lambda_extensi.Workers.Sender.{LogSender}
use sumologic_lambda_extensi.Workers.Consumer.{Consumer, ◌>>=◌, with_queue, drain_queue}
use sumologic_lambda_extensi.Workers.Consumer.Draining.{IsOpen, settled, drain_queue-settled}
use sumologic_lambda_extensi.Workers.ManagedConsumer.{managed_drain_queue}
use sumologic_lambda_extensi.Workers.ManagedConsumer.Settling.{
  managed_drain_queue-eq-drain_queue, managed_drain_queue-nil,
}
use sumologic_lambda_extensi.Workers.Interleaving.{
  Mode, standard, managed, Phase, idle, receiving, sending, after_default, System, answered, begin,
  receive_nothing, answer, finish, here,
}
use sumologic_lambda_extensi.Workers.Interleaving.Runs.{
  Leads, Step-Leads, Leads-trans, receive_all_run, put_all,
}

module _ (L : LogSender) where
  -- `DrainQueue` of the two modes.
  abbrev pub drain : Mode → Consumer L → Run (ℕ × Consumer L)
  drain standard c = drain_queue L c
  drain managed c = managed_drain_queue L c

  abbrev pub consumer_of : System L → Consumer L
  consumer_of s = record { queue = s.queue; sender = s.sender }

  returned : {A : Type 0} {a b : A} → returns a ≡ returns b → a ≡ b
  returned h = cc

  -- From the return of the sender's call on.
  answer-Leads :
      (mode : Mode) (ms : List Bytes) (q : Channel Bytes) (s : System L)
      (r : Outcome (Option Error) × L.State) (k : ℕ) (d : Consumer L)
      → IsOpen q
      → s.queue ≡ emptied q
      → q.buffer ≡ ms
      → settled L (with_queue L s.sender q) r ≡ returns (k, d)
      → Leads L mode (answered L ms r s) d.queue idle d.sender
  answer-Leads mode ms q s (panic, t) k d o e b h = cc
  answer-Leads mode ms q s (done none, t) k d o e b h = record {
    last = answered L ms (done none, t) s;
    reach = here;
    queue = e ∙ ap (λ (x : ℕ × Consumer L). x.1.queue) (returned h);
    phase = refl;
    sender = ap (λ (x : ℕ × Consumer L). x.1.sender) (returned h);
  }
  answer-Leads mode ms q s (done (some x), t) k d o e b h =
      Leads-trans L mode
        (put_all L mode ms (answered L ms (done (some x), t) s) (emptied q) e refl o.open'
          (omega (arith, o.fits, ap (λ l. length l) b)))
        λ u qu fu tu. Step-Leads L mode (finish fu) (record {
          last = record u { phase = idle };
          reach = here;
          queue =
              qu
              ∙ ap (λ l. record q { buffer = l }) (sym b)
              ∙ ap (λ (x : ℕ × Consumer L). x.1.queue) (returned h);
          phase = refl;
          sender = tu ∙ ap (λ (x : ℕ × Consumer L). x.1.sender) (returned h);
        })

  -- From the `default` case on, if it calls the sender.
  call-Leads :
      (mode : Mode) (ms : List Bytes) (q : Channel Bytes) (u : System L) (t : L.State) (k : ℕ)
      (d : Consumer L)
      → IsOpen q
      → u.queue ≡ emptied q
      → u.sender ≡ t
      → q.buffer ≡ ms
      → u.phase ≡ sending ms
      → settled L (with_queue L t q) (L.send_all_logs ms t) ≡ returns (k, d)
      → Leads L mode u d.queue idle d.sender
  call-Leads mode ms q u t k d o e f b p h = Step-Leads L mode (answer ms p) (
      answer-Leads mode ms q u (L.send_all_logs ms u.sender) k d o e b (
        subst (λ x. settled L (with_queue L x q) (L.send_all_logs ms x) ≡ returns (k, d)) (sym f)
          h))

  emptied_receive : (q : Channel Bytes) → IsOpen q → receive_from [] (emptied q) ≡ nothing
  emptied_receive q o = ground (arith, o.open')

  -- The loop that receives, and its `default` case.
  received-Leads :
      (mode : Mode) (s : System L) (f : Phase) (d : Consumer L)
      → s.phase ≡ idle
      → IsOpen s.queue
      → after_default mode s.queue.buffer ≡ f
      → ((u : System L)
          → u.queue ≡ emptied s.queue
          → u.sender ≡ s.sender
          → u.phase ≡ f
          → Leads L mode u d.queue idle d.sender)
      → Leads L mode s d.queue idle d.sender
  received-Leads mode s f d i o e go = Step-Leads L mode (begin i) (
      Leads-trans L mode
        (receive_all_run L mode s.queue.buffer [] (record s { phase = receiving [] }) s.queue refl
          refl refl)
        λ u qu fu tu.
          Step-Leads L mode
            (receive_nothing s.queue.buffer fu
              (ap (λ (c : Channel Bytes). receive_from c.buffer c) qu ∙ emptied_receive s.queue o))
            (go (record u { phase = after_default mode s.queue.buffer }) qu tu e))

  abbrev zero_number : ℕ × Consumer L → Run (ℕ × Consumer L)
  zero_number r = returns (0, r.1)

  unzeroed :
      (m : Run (ℕ × Consumer L)) (k : ℕ) (d : Consumer L)
      → (m >>= zero_number) ≡ returns (k, d)
      → (j : ℕ) × (m ≡ returns (j, d))
  unzeroed (returns (j, d')) k d h =
      (j, ap (λ x. returns (j, x)) (ap (λ (x : ℕ × Consumer L). x.1) (returned h)))
  unzeroed blocks k d h = cc
  unzeroed panics k d h = cc
  unzeroed diverges k d h = cc

  managed-Leads :
      (ms : List Bytes) (s : System L) (k : ℕ) (d : Consumer L)
      → s.phase ≡ idle
      → IsOpen s.queue
      → s.queue.buffer ≡ ms
      → managed_drain_queue L (consumer_of s) ≡ returns (k, d)
      → Leads L managed s d.queue idle d.sender
  managed-Leads [] s k d i o b h =
      let p = returned (sym (managed_drain_queue-nil L (consumer_of s) o b) ∙ h) in
      received-Leads managed s idle d i o (ap (after_default managed) b) λ u qu tu fu. record {
        last = u;
        reach = here;
        queue =
            qu
            ∙ ap (λ l. record s.queue { buffer = l }) (sym b)
            ∙ ap (λ (x : ℕ × Consumer L). x.1.queue) p;
        phase = fu;
        sender = tu ∙ ap (λ (x : ℕ × Consumer L). x.1.sender) p;
      }
  managed-Leads (m ∷ ms) s k d i o b h =
      let c = consumer_of s in
      let e = managed_drain_queue-eq-drain_queue L c o (λ z. cc) in
      let j = unzeroed (drain_queue L c) k d (sym e ∙ h) in
      received-Leads managed s (sending (m ∷ ms)) d i o (ap (after_default managed) b) λ u qu tu fu.
        call-Leads managed (m ∷ ms) s.queue u s.sender j.0 d o qu tu b fu (
          subst (λ l. settled L c (L.send_all_logs l s.sender) ≡ returns (j.0, d)) b
            (sym (drain_queue-settled L c o) ∙ j.1))

  -- A drain of an open queue within its capacity that returns, in either mode, is a run of the steps,
  -- with no step of a handler: from the idle consumer it leads to the idle consumer, with the queue and
  -- the sender that the drain leaves.
  pub drain-Leads :
      (mode : Mode) (s : System L) (k : ℕ) (d : Consumer L)
      → s.phase ≡ idle
      → IsOpen s.queue
      → drain mode (consumer_of s) ≡ returns (k, d)
      → Leads L mode s d.queue idle d.sender
  drain-Leads managed s k d i o h = managed-Leads s.queue.buffer s k d i o refl h
  drain-Leads standard s k d i o h =
      received-Leads standard s (sending s.queue.buffer) d i o refl λ u qu tu fu.
        call-Leads standard s.queue.buffer s.queue u s.sender k d o qu tu refl fu
          (sym (drain_queue-settled L (consumer_of s) o) ∙ h)
