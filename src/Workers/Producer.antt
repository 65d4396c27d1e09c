-- ===== src/Workers/Producer.antt =====
-- lambda-extensions/workers/producer.go: the handler of the standard mode.
use sumologic_lambda_extensi.Base.{ℕ, not, Option, String, key_eq, if◌then◌else◌, Error}
use sumologic_lambda_extensi.SumoClient.Services.{Bytes}
use sumologic_lambda_extensi.Workers.Channel.{Run, returns, Channel, send}
use sumologic_lambda_extensi.Workers.Consumer.{◌>>=◌}

-- A request to the extension's server: what `ReadAll` read of its body, and its error, if any.
pub record Incoming : Type 0 where
  pub path : String
  pub method : String
  pub body : Bytes
  pub read_error : Option Error

-- The status that the handler answers by. With no call that writes one, net/http answers 200.
abbrev pub status_ok : ℕ
status_ok = 200

abbrev pub status_not_found : ℕ
status_not_found = 404

-- `logsHandler`: the status and the queue. A body that could not be read to its end is queued as far as
-- it was read.
unfoldable pub logs_handler : Incoming → Channel Bytes → Run (ℕ × Channel Bytes)
logs_handler request queue =
    if not (key_eq request.path "/")
    then returns (status_not_found, queue)
    else if key_eq request.method "POST"
    then (do queue' ← send request.body queue; returns (status_ok, queue'))
    else returns (status_ok, queue)
