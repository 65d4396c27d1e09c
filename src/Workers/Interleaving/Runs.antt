-- ===== src/Workers/Interleaving/Runs.antt =====
-- Runs of the step relation: messages that arrive and are queued, a queue received whole, and messages
-- put back.
use sumologic_lambda_extensi.Base.{
  ◌+◌, ◌≤◌, ◌<◌, ◌≡◌, refl, ◌∙◌, ap, sym, subst, false, List, [], ◌∷◌, ◌++◌, append-nil,
  append_assoc, length, length-append, arith,
}
use sumologic_lambda_extensi.SumoClient.Services.{Bytes}
use sumologic_lambda_extensi.Workers.Channel.{Channel, push, send, try_send, receive_from}
use sumologic_lambda_extensi.Workers.ChannelLaws.{emptied}
use sumologic_lambda_extensi.Workers.Sender.{LogSender}
use sumologic_lambda_extensi.Workers.Interleaving.{
  Mode, standard, managed, Offers, sent, queued, Phase, receiving, putting_back, System, Step,
  arrive, handle, receive, put, Reach, here, next,
}

-- A message for which there is room is queued, in either mode.
pub room-Offers :
    (mode : Mode) (m : Bytes) (q : Channel Bytes)
    → q.closed ≡ false
    → length q.buffer < q.capacity
    → Offers m q (push q m) mode []
unfolding send try_send
room-Offers standard m q o h = sent (ground arith)
room-Offers managed m q o h = queued (ground arith)

abbrev pub appended : Channel Bytes → List Bytes → Channel Bytes
appended q ms = record q { buffer = q.buffer ++ ms }

appended-nil : (q : Channel Bytes) → q ≡ appended q []
appended-nil q = ap (λ l. record q { buffer = l }) (sym (append-nil q.buffer))

appended-push :
    (q : Channel Bytes) (m : Bytes) (ms : List Bytes) → appended (push q m) ms ≡ appended q (m ∷ ms)
appended-push q m ms = ap (λ l. record q { buffer = l }) (append_assoc q.buffer (m ∷ []) ms)

module _ (L : LogSender) (mode : Mode) where
  -- A run from `s` to a state with this queue, phase and sender.
  pub record Leads (s : System L) (q : Channel Bytes) (f : Phase) (t : L.State) : Type 0 where
    pub last : System L
    pub reach : Reach L mode s last
    pub queue : last.queue ≡ q
    pub phase : last.phase ≡ f
    pub sender : last.sender ≡ t

  pub Reach-trans : {s t u : System L} → Reach L mode s t → Reach L mode t u → Reach L mode s u
  Reach-trans r here = r
  Reach-trans r (next k st) = next (Reach-trans r k) st

  -- A step, and then a run.
  pub Step-Leads :
      {s u : System L} {q : Channel Bytes} {f : Phase} {t : L.State}
      → Step L mode s u
      → Leads u q f t
      → Leads s q f t
  Step-Leads st k = record {
    last = k.last;
    reach = Reach-trans (next here st) k.reach;
    queue = k.queue;
    phase = k.phase;
    sender = k.sender;
  }

  -- A run, and then another from where it leads.
  pub Leads-trans :
      {s : System L} {q q' : Channel Bytes} {f f' : Phase} {t t' : L.State}
      → Leads s q f t
      → ((u : System L) → u.queue ≡ q → u.phase ≡ f → u.sender ≡ t → Leads u q' f' t')
      → Leads s q' f' t'
  Leads-trans a b =
      let k = b a.last a.queue a.phase a.sender in
      record {
        last = k.last;
        reach = Reach-trans a.reach k.reach;
        queue = k.queue;
        phase = k.phase;
        sender = k.sender;
      }

  pub deliver_all :
      (ms : List Bytes) (s : System L) (q : Channel Bytes)
      → s.queue ≡ q
      → q.closed ≡ false
      → length q.buffer + length ms ≤ q.capacity
      → Leads s (appended q ms) s.phase s.sender
  deliver_all [] s q e o h = record {
    last = s;
    reach = here;
    queue = e ∙ appended-nil q;
    phase = refl;
    sender = refl;
  }
  deliver_all (m ∷ ms) s q e o h =
      let offer = room-Offers mode m q o (omega arith) in
      let rest =
        deliver_all ms _ (push q m) refl o (omega (arith, length-append q.buffer (m ∷ []))) in
      subst (λ (c : Channel Bytes). Leads s c s.phase s.sender) (appended-push q m ms)
        (Step-Leads (arrive m) (
          Step-Leads
            (handle s.handlers [] m refl
              (subst (λ (c : Channel Bytes). Offers m c (push q m) mode []) (sym e) offer))
            rest))

  pub receive_all_run :
      (xs got : List Bytes) (s : System L) (q : Channel Bytes)
      → s.queue ≡ q
      → q.buffer ≡ xs
      → s.phase ≡ receiving got
      → Leads s (emptied q) (receiving (got ++ xs)) s.sender
  receive_all_run [] got s q e b h = record {
    last = s;
    reach = here;
    queue = e ∙ ap (λ l. record q { buffer = l }) b;
    phase = h ∙ ap receiving (sym (append-nil got));
    sender = refl;
  }
  receive_all_run (x ∷ xs) got s q e b h =
      let c : Channel Bytes = record q { buffer = xs } in
      let rest =
        receive_all_run xs (got ++ x ∷ [])
          (record s { queue = c; phase = receiving (got ++ x ∷ []) }) c refl refl refl in
      subst (λ l. Leads s (emptied q) (receiving l) s.sender) (append_assoc got (x ∷ []) xs)
        (Step-Leads
          (receive got x h
            (ap (λ (d : Channel Bytes). receive_from d.buffer d) e ∙ ap (λ l. receive_from l q) b))
          rest)

  pub put_all :
      (ms : List Bytes) (s : System L) (q : Channel Bytes)
      → s.queue ≡ q
      → s.phase ≡ putting_back ms
      → q.closed ≡ false
      → length q.buffer + length ms ≤ q.capacity
      → Leads s (appended q ms) (putting_back []) s.sender
  put_all [] s q e f o h = record {
    last = s;
    reach = here;
    queue = e ∙ appended-nil q;
    phase = f;
    sender = refl;
  }
  put_all (m ∷ ms) s q e f o h =
      let offer = room-Offers mode m q o (omega arith) in
      let rest =
        put_all ms (record s { queue = push q m; phase = putting_back ms; lost = s.lost ++ [] })
          (push q m) refl refl o (omega (arith, length-append q.buffer (m ∷ []))) in
      subst (λ (c : Channel Bytes). Leads s c (putting_back []) s.sender) (appended-push q m ms)
        (Step-Leads
          (put m ms f (subst (λ (c : Channel Bytes). Offers m c (push q m) mode []) (sym e) offer))
          rest)
