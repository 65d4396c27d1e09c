-- ===== src/Workers/Sender.antt =====
-- sumoclient.go's interface `LogSender`, and the client that implements it.
use sumologic_lambda_extensi.Base.{Option, List, Error, St}
use sumologic_lambda_extensi.Config.Defs.{LambdaExtensionConfig}
use sumologic_lambda_extensi.SumoClient.Services.{Bytes, Services, ClientState}
use sumologic_lambda_extensi.SumoClient.Enhance.{Outcome}
use sumologic_lambda_extensi.SumoClient.Send.{send_logs, send_all_logs, flush_all}

pub record LogSender : Type 1 where
  pub State : Type 0
  pub send_logs : Bytes → St State (Outcome (Option Error))
  pub send_all_logs : List Bytes → St State (Outcome (Option Error))
  pub flush_all : List Bytes → St State (Outcome (Option Error))

-- `NewLogSenderClient`
abbrev pub sumo_sender : Services → LambdaExtensionConfig → LogSender
sumo_sender S cfg = record {
  State = ClientState S;
  send_logs = send_logs S cfg;
  send_all_logs = send_all_logs S cfg;
  flush_all = flush_all S cfg;
}
