-- ===== src/Main/Hanging.antt =====
-- `processEvents` in standard mode: when it hangs.
use sumologic_lambda_extensi.Base.{
  ℕ, ◌<◌, ◌≡◌, refl, ◌≢◌, false, some, List, [], ◌∷◌, ◌++◌, length, Error,
}
use sumologic_lambda_extensi.Config.Defs.{LambdaExtensionConfig}
use sumologic_lambda_extensi.SumoClient.Enhance.{done}
use sumologic_lambda_extensi.Workers.Channel.{blocks}
use sumologic_lambda_extensi.Workers.Sender.{LogSender}
use sumologic_lambda_extensi.Workers.Contended.{pending, Worker}
use sumologic_lambda_extensi.Workers.Contended.Lines.{IsOpenLine}
use sumologic_lambda_extensi.Workers.Contended.Draining.{drain_among-blocks}
use sumologic_lambda_extensi.LambdaApi.HttpClient.{Network}
use sumologic_lambda_extensi.Main.{Turn, System, process_turn, process_loop}

module _ (L : LogSender) (N : Network) (n : ℕ) where
  -- In standard mode, with an open queue and the context not done: if `SendAllLogs` fails for the messages
  -- that the next drain receives, those of the queue, of the handlers that wait and of those that come
  -- until then, and they are, with those that come during the call, more than the capacity, then the loop
  -- of `processEvents` waits for ever in that turn.
  pub process_loop-blocks :
      (cfg : LambdaExtensionConfig) (t : Turn) (ts : List Turn) (s : System L N) (w : Worker L)
      (e : Error)
      → s.consumer ≡ some w
      → t.cancelled ≡ false
      → IsOpenLine n w.line
      → (L.send_all_logs (pending w.line ++ (t.around 0).before) w.sender).0 ≡ done (some e)
      → pending w.line ++ (t.around 0).before ≢ []
      → n < length ((pending w.line ++ (t.around 0).before) ++ (t.around 0).during)
      → process_loop L N cfg false (t ∷ ts) s ≡ blocks
  unfolding process_loop process_turn
  process_loop-blocks cfg t ts s w e c live o fails some' more =
      rw (live, c, drain_among-blocks L n (t.around 0) w o e fails some' more) refl
