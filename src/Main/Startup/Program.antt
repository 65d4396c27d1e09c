-- ===== src/Main/Startup/Program.antt =====
-- From `init` to the end of `main`.
use sumologic_lambda_extensi.Base.{ℕ, ◌<◌, ◌⊎◌, List, [], length, Result, ok}
use sumologic_lambda_extensi.Base.Text.{Text}
use sumologic_lambda_extensi.SumoClient.Services.{Bytes, Services}
use sumologic_lambda_extensi.Workers.Channel.{Run, returns, blocks, Channel}
use sumologic_lambda_extensi.Workers.Sender.{LogSender}
use sumologic_lambda_extensi.Workers.ManagedProducer.{Event}
use sumologic_lambda_extensi.LambdaApi.HttpClient.{Network}
use sumologic_lambda_extensi.Main.{Turn}
use sumologic_lambda_extensi.Main.Accounting.{Came, arrivals, Contains}
use sumologic_lambda_extensi.Main.Startup.{Exit, running, stopped, recovered}

module _ (L : LogSender) (N : Network) (n : ℕ) where
  -- `main` is in its loop or has ended, with the messages that came until then accounted for, none if the
  -- start at the API failed; or it has recovered from a panic; or it waits for ever, and more messages
  -- came than fit.
  abbrev pub Ends : List Turn → Run (Exit L N) → Type 0
  Ends ts (returns (running s)) = Contains L N n (arrivals ts) s
  Ends ts (returns (stopped s)) =
      Contains L N n [] s ⊎ ((ys : List Bytes) × Came ts ys × Contains L N n ys s)
  Ends ts (returns (recovered api)) = Unit
  Ends ts blocks = (ys : List Bytes) × Came ts ys × (n < length ys)
  Ends ts _ = ⊥

-- In standard mode the events are not read.
abbrev no_events : Bytes → Result (List Event)
no_events b = ok []
