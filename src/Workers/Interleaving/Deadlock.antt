-- ===== src/Workers/Interleaving/Deadlock.antt =====
-- In standard mode the consumer can wait for itself: it puts messages back into a queue that has been
-- filled meanwhile, and nobody else receives from it.
use sumologic_lambda_extensi.Base.{
  ℕ, ◌≤◌, ◌≡◌, refl, ◌∙◌, ap, subst, false, some, List, [], ◌∷◌, length, Error, arith,
}
use sumologic_lambda_extensi.SumoClient.Services.{Bytes}
use sumologic_lambda_extensi.SumoClient.Enhance.{done}
use sumologic_lambda_extensi.Workers.Channel.{returns, Channel, make, send, receive_from}
use sumologic_lambda_extensi.Workers.Sender.{LogSender}
use sumologic_lambda_extensi.Workers.Interleaving.{
  standard, Offers, sent, receiving, sending, putting_back, System, answered, Step, arrive, handle,
  begin, receive, receive_nothing, answer, put, finish, Reach, here, next, quiet,
}
use sumologic_lambda_extensi.Workers.Interleaving.Runs.{
  Leads, Step-Leads, Leads-trans, deliver_all, receive_all_run, appended,
}

-- An open queue with no room.
pub record IsFull (q : Channel Bytes) : Type 0 where
  pub open' : q.closed ≡ false
  pub full : q.capacity ≤ length q.buffer

no_send : (m : Bytes) (q q' : Channel Bytes) → IsFull q → send m q ≡ returns q' → ⊥
unfolding send
no_send m q q' f h = ground arith

no_Offers :
    {m : Bytes} {q q' : Channel Bytes} {ds : List Bytes} → IsFull q → Offers m q q' standard ds → ⊥
no_Offers {m} {q} {q'} f (sent h) = no_send m q q' f h

module _ (L : LogSender) where
  -- The consumer is about to put messages back into this full queue.
  pub record Waits (ms : List Bytes) (q : Channel Bytes) (s : System L) : Type 0 where
    pub phase : s.phase ≡ putting_back ms
    pub queue : s.queue ≡ q

  module _ (m : Bytes) (ms : List Bytes) (q : Channel Bytes) (f : IsFull q) where
    blocked :
        {s : System L} {x : Bytes} {q' : Channel Bytes} {ds : List Bytes}
        → Waits (m ∷ ms) q s
        → Offers x s.queue q' standard ds
        → ⊥
    blocked {x = x} {q' = q'} {ds = ds} w o =
        no_Offers f (subst (λ (c : Channel Bytes). Offers x c q' standard ds) w.queue o)

    Step-Waits : {s t : System L} → Step L standard s t → Waits (m ∷ ms) q s → Waits (m ∷ ms) q t
    Step-Waits (arrive x) w = record { phase = w.phase; queue = w.queue }
    Step-Waits (handle xs ys x e o) w = absurd (blocked w o)
    Step-Waits (begin h) w = cc (w.phase)
    Step-Waits (receive got x h e) w = cc (w.phase)
    Step-Waits (receive_nothing got h e) w = cc (w.phase)
    Step-Waits (answer got h) w = cc (w.phase)
    Step-Waits (put x rest h o) w = absurd (blocked w o)
    Step-Waits (finish h) w = cc (w.phase)

    -- Once the consumer of the standard mode is about to put a message back into a full queue, it is so
    -- in every state that can follow, and the queue holds the same messages: nothing is ever received or
    -- sent again.
    pub Reach-Waits :
        {s t : System L} → Waits (m ∷ ms) q s → Reach L standard s t → Waits (m ∷ ms) q t
    Reach-Waits w here = w
    Reach-Waits w (next r st) = Step-Waits st (Reach-Waits w r)

  -- The run: the messages arrive, the consumer takes them and calls the sender, the later ones arrive, and
  -- the call fails.
  failed_call :
      (ms : List Bytes) (s : System L) (q : Channel Bytes) (t : L.State) (e : Error)
      → s.queue ≡ q
      → s.phase ≡ sending ms
      → L.send_all_logs ms s.sender ≡ (done (some e), t)
      → Leads L standard s q (putting_back ms) t
  failed_call ms s q t e h f r = Step-Leads L standard (answer ms f) (record {
    last = answered L ms (L.send_all_logs ms s.sender) s;
    reach = here;
    queue = ap (λ r. (answered L ms r s).queue) r ∙ h;
    phase = ap (λ r. (answered L ms r s).phase) r;
    sender = ap (λ r. (answered L ms r s).sender) r;
  })

  full_queue_run :
      (n : ℕ) (ms ns : List Bytes) (t t' : L.State) (e : Error)
      → length ms ≡ n
      → length ns ≡ n
      → L.send_all_logs ms t ≡ (done (some e), t')
      → Leads L standard (quiet L (make n) t) (appended (make n) ns) (putting_back ms) t'
  unfolding make
  full_queue_run n ms ns t t' e a b r =
      Leads-trans L standard
        (deliver_all L standard ms (quiet L (make n) t) (make n) refl refl (omega arith))
        λ s1 q1 f1 t1. Step-Leads L standard (begin f1) (
          Leads-trans L standard
            (receive_all_run L standard ms [] (record s1 { phase = receiving [] })
              (appended (make n) ms) q1 refl refl)
            λ s2 q2 f2 t2.
              Step-Leads L standard
                (receive_nothing ms f2 (ap (λ (d : Channel Bytes). receive_from d.buffer d) q2))
                (Leads-trans L standard
                  (deliver_all L standard ns (record s2 { phase = sending ms }) (make n) (q2) refl
                    (omega arith))
                  λ s3 q3 f3 t3.
                    failed_call ms s3 _ t' e q3 f3 (ap (L.send_all_logs ms) (t3 ∙ t2 ∙ t1) ∙ r)))

  -- A state to which a run from `s` leads, and from which every run leads to a consumer that is about to
  -- put `ms` back into the queue `q`.
  pub record Deadlocks (s : System L) (ms : List Bytes) (q : Channel Bytes) : Type 0 where
    pub last : System L
    pub reach : Reach L standard s last
    pub stays : (u : System L) → Reach L standard last u → Waits ms q u

  appended-IsFull : (n : ℕ) (ns : List Bytes) → length ns ≡ n → IsFull (appended (make n) ns)
  unfolding make
  appended-IsFull n ns h = record { open' = refl; full = omega (arith, h) }

  -- With any sender, state of the sender, and queue capacity above 0: if `SendAllLogs` fails for some
  -- messages that fill the queue, then a run of the standard mode leads from the empty queue to a state
  -- in which the consumer is about to put them back into a queue which other messages fill; and so it is
  -- in every state that can follow: nothing is ever received or sent again.
  pub deadlock_reachable :
      (n : ℕ) (m : Bytes) (ms ns : List Bytes) (t t' : L.State) (e : Error)
      → length (m ∷ ms) ≡ n
      → length ns ≡ n
      → L.send_all_logs (m ∷ ms) t ≡ (done (some e), t')
      → Deadlocks (quiet L (make n) t) (m ∷ ms) (appended (make n) ns)
  deadlock_reachable n m ms ns t t' e a b r =
      let run = full_queue_run n (m ∷ ms) ns t t' e a b r in
      record {
        last = run.last;
        reach = run.reach;
        stays = λ u k.
            Reach-Waits m ms (appended (make n) ns) (appended-IsFull n ns b)
              (record { phase = run.phase; queue = run.queue }) k;
      }
