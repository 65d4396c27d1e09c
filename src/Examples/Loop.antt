-- ===== src/Examples/Loop.antt =====
-- The loop of the extension, in both modes.
use sumologic_lambda_extensi.Base.{
  ℕ, ◌≡◌, ◌≢◌, All, foreign, refl, true, false, none, some, List, [], ◌∷◌, arith,
}
use sumologic_lambda_extensi.SumoClient.Services.{Bytes}
use sumologic_lambda_extensi.SumoClient.Enhance.{done}
use sumologic_lambda_extensi.Workers.Channel.{blocks, Channel}
use sumologic_lambda_extensi.Workers.Sender.{LogSender}
use sumologic_lambda_extensi.Workers.Contended.{Around, Worker}
use sumologic_lambda_extensi.Workers.Contended.Quiet.{nothing_comes}
use sumologic_lambda_extensi.Main.{Turn, System, process_loop}
use sumologic_lambda_extensi.Main.Accounting.{contains, Accounted, process_loop-Accounted}
use sumologic_lambda_extensi.Main.Hanging.{process_loop-blocks}
use sumologic_lambda_extensi.Main.Managed.{Fails, process_loop-Fails}
use sumologic_lambda_extensi.Examples.Data.{settings}
use sumologic_lambda_extensi.Examples.Api.{network, fresh}

-- One message before the drain, and one during the call.
abbrev pub two_come : ℕ → Around
two_come k = record { before = (1 ∷ []) ∷ []; during = (2 ∷ []) ∷ []; between = [] }

abbrev pub turns : List Turn
turns =
    record { cancelled = false; around = two_come }
    ∷ record { cancelled = false; around = λ k. nothing_comes }
    ∷ []

pub turns-live : All (λ (t : Turn). t.cancelled ≡ false) turns
turns-live = (refl, (refl, tt))

-- A sender that fails with any message.
abbrev failing : LogSender
failing = record {
  State = Unit;
  send_logs = λ b s. (done (some (foreign [])), s);
  send_all_logs = λ bs s. elim bs [ [] ↦ (done none, s) | m ∷ ms ↦ (done (some (foreign [])), s) ];
  flush_all = λ bs s. (done (some (foreign [])), s);
}

abbrev empty_queue : ℕ → Channel Bytes
empty_queue n = record { buffer = []; capacity = n; closed = false }

abbrev worker : ℕ → Worker failing
worker n = record { line = record { channel = empty_queue n; waiting = [] }; sender = tt }

abbrev in_outage : ℕ → System failing network
in_outage n = record { api = fresh; consumer = some (worker n) }

process_loop-Accounted_example :
    Accounted failing network 5 [] turns
      (process_loop failing network settings false turns (in_outage 5))
process_loop-Accounted_example =
    process_loop-Accounted failing network 5 settings [] turns (in_outage 5) turns-live (
      contains (worker 5) refl (record {
        line = record { open' = refl; sized = refl };
        batches = [];
        sent = tt;
        same = λ p. refl;
      }))

one-some : ◌≢◌ {A = List Bytes} ((1 ∷ []) ∷ []) []
one-some e = cc

process_loop-blocks_example :
    process_loop failing network settings false turns (in_outage 1) ≡ blocks
process_loop-blocks_example =
    process_loop-blocks failing network 1 settings (record { cancelled = false; around = two_come })
      (record { cancelled = false; around = λ k. nothing_comes } ∷ []) (in_outage 1) (worker 1)
      (foreign []) refl refl (record { open' = refl; sized = refl }) refl one-some (omega arith)

abbrev managed : System failing network
managed = record { api = fresh; consumer = none }

process_loop-Fails_example :
    Fails failing network settings (process_loop failing network settings true turns managed)
process_loop-Fails_example = process_loop-Fails failing network settings turns managed refl
