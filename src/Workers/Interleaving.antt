-- ===== src/Workers/Interleaving.antt =====
-- lambda-extensions/workers/: the handlers and a drain of the queue as goroutines, one receive or send of
-- a channel at a time, in any order. `standard` is producer.go with consumer.go, `managed` the two files of
-- the managed instance mode.
pub mod Conservation
pub mod Runs
pub mod Deadlock
pub mod Atomic
pub mod Progress
use sumologic_lambda_extensi.Base.{
  ◌≡◌, Bool, true, false, Option, none, some, List, [], ◌∷◌, ◌++◌, Error,
}
use sumologic_lambda_extensi.SumoClient.Services.{Bytes}
use sumologic_lambda_extensi.SumoClient.Enhance.{Outcome, done, panic}
use sumologic_lambda_extensi.Workers.Channel.{
  returns, Channel, send, try_send, receive_from, value, nothing,
}
use sumologic_lambda_extensi.Workers.Sender.{LogSender}

pub data Mode : Type 0 where
  standard managed : Mode

-- `Offers mode m q q' lost`: the send of `m` is made on `q` and leaves `q'`. In managed instance mode it
-- has a `default` case, in which the message is lost.
pub data Offers (m : Bytes) (q q' : Channel Bytes) : Mode → List Bytes → Type 0 where
  sent : send m q ≡ returns q' → Offers m q q' standard []
  queued : try_send m q ≡ returns (true, q') → Offers m q q' managed []
  dropped : try_send m q ≡ returns (false, q') → Offers m q q' managed (m ∷ [])

-- Where the consumer's goroutine stands in `DrainQueue`, with the messages that it holds.
pub data Phase : Type 0 where
  idle : Phase
  receiving sending putting_back crashed : List Bytes → Phase

-- The `default` case of the receiving loop; with no messages the managed consumer sends nothing.
abbrev pub after_default : Mode → List Bytes → Phase
after_default standard got = sending got
after_default managed [] = idle
after_default managed (m ∷ got) = sending (m ∷ got)

module _ (L : LogSender) where
  -- `handlers` holds the bodies that their handlers are about to send. The last three fields are the
  -- history: the bodies that arrived, those of calls of the sender that succeeded, and those lost.
  pub record System : Type 0 where
    pub queue : Channel Bytes
    pub sender : L.State
    pub phase : Phase
    pub handlers : List Bytes
    pub arrived : List Bytes
    pub delivered : List Bytes
    pub lost : List Bytes

  -- What follows the return of `SendAllLogs`.
  abbrev pub answered : List Bytes → Outcome (Option Error) × L.State → System → System
  answered got (panic, t) s = record s { sender = t; phase = crashed got }
  answered got (done none, t) s = record s {
    sender = t;
    phase = idle;
    delivered = s.delivered ++ got;
  }
  answered got (done (some e), t) s = record s { sender = t; phase = putting_back got }

  pub data Step (mode : Mode) (s : System) : System → Type 0 where
    arrive :
        (m : Bytes)
        → Step mode s (record s { handlers = s.handlers ++ m ∷ []; arrived = s.arrived ++ m ∷ [] })
    handle :
        (xs ys : List Bytes) (m : Bytes) {q : Channel Bytes} {ds : List Bytes}
        → s.handlers ≡ xs ++ m ∷ ys
        → Offers m s.queue q mode ds
        → Step mode s (record s { queue = q; handlers = xs ++ ys; lost = s.lost ++ ds })
    begin : s.phase ≡ idle → Step mode s (record s { phase = receiving [] })
    receive :
        (got : List Bytes) (m : Bytes) {q : Channel Bytes}
        → s.phase ≡ receiving got
        → receive_from s.queue.buffer s.queue ≡ value m q
        → Step mode s (record s { queue = q; phase = receiving (got ++ m ∷ []) })
    receive_nothing :
        (got : List Bytes)
        → s.phase ≡ receiving got
        → receive_from s.queue.buffer s.queue ≡ nothing
        → Step mode s (record s { phase = after_default mode got })
    answer :
        (got : List Bytes)
        → s.phase ≡ sending got
        → Step mode s (answered got (L.send_all_logs got s.sender) s)
    put :
        (m : Bytes) (rest : List Bytes) {q : Channel Bytes} {ds : List Bytes}
        → s.phase ≡ putting_back (m ∷ rest)
        → Offers m s.queue q mode ds
        → Step mode s (record s { queue = q; phase = putting_back rest; lost = s.lost ++ ds })
    finish : s.phase ≡ putting_back [] → Step mode s (record s { phase = idle })

  pub data Reach (mode : Mode) (s : System) : System → Type 0 where
    here : Reach mode s s
    next : {t u : System} → Reach mode s t → Step mode t u → Reach mode s u

  -- An empty queue of this capacity, with nobody at work.
  abbrev pub quiet : Channel Bytes → L.State → System
  quiet q t = record {
    queue = q;
    sender = t;
    phase = idle;
    handlers = [];
    arrived = q.buffer;
    delivered = [];
    lost = [];
  }
