-- ===== src/Main.antt =====
-- lambda-extensions/sumologic-extension.go: `processEvents`, with the handlers of the producer at work.
pub mod Accounting
pub mod Hanging
pub mod Managed
pub mod Startup
use sumologic_lambda_extensi.Base.{
  ℕ, Bool, true, false, Option, none, some, List, [], ◌∷◌, if◌then◌else◌, Error, Result, ok, err,
}
use sumologic_lambda_extensi.Base.Text.{codes, text_eq}
use sumologic_lambda_extensi.Config.Defs.{LambdaExtensionConfig}
use sumologic_lambda_extensi.Workers.Channel.{Run, returns, blocks, panics, diverges}
use sumologic_lambda_extensi.Workers.Sender.{LogSender}
use sumologic_lambda_extensi.Workers.Consumer.{◌>>=◌}
use sumologic_lambda_extensi.Workers.Contended.{Around, Worker, drain_among, flush_among}
use sumologic_lambda_extensi.LambdaApi.HttpClient.{NextEventResponse, Network, ApiState}
use sumologic_lambda_extensi.LambdaApi.Calls.{next_event, run_time_api_init}

-- A turn of the loop: whether the context is done, and what the handlers get around the first drain of
-- the turn, around the second, and so on. What they get while the loop waits for an event stands in what
-- comes after the drain before it, or before the next.
pub record Turn : Type 0 where
  pub cancelled : Bool
  pub around : ℕ → Around

module _ (L : LogSender) (N : Network) where
  -- The package variables of the loop; `consumer` is nil in managed instance mode. Its queue stands with
  -- the handlers that wait for room.
  pub record System : Type 0 where
    pub api : ApiState N
    pub consumer : Option (Worker L)

  -- What a turn leads to: the next turn, or the end of `processEvents`.
  pub data Next : Type 0 where
    goes_on stops : System → Next

  -- A method of a nil consumer panics.
  abbrev pub with_consumer : (Worker L → Run (Worker L)) → Option (Worker L) → System → Run System
  with_consumer f none s = panics
  with_consumer f (some w) s = do w' ← f w; returns (record s { consumer = some w' })

  abbrev pub drain_once : Around → Worker L → Run (Worker L)
  drain_once a w = do r ← drain_among L a w; returns r.1

  -- What follows the answer; `a` is what comes around the drain behind a shutdown event.
  abbrev pub after_event : Around → Result NextEventResponse → System → Run Next
  after_event a (err e) s = returns (stops s)
  after_event a (ok event) s =
      if text_eq event.event_type (codes "SHUTDOWN")
      then (do s' ← with_consumer (drain_once a) s.consumer s; returns (stops s'))
      else returns (goes_on s)

  abbrev pub await_event : Around → System → Run Next
  await_event a s = let r = next_event N s.api in after_event a r.0 (record s { api = r.1 })

  -- The body of the loop, by whether the context is done.
  unfoldable pub process_turn :
      LambdaExtensionConfig → Bool → Bool → (ℕ → Around) → System → Run Next
  process_turn cfg managed true around s = do
    s' ← with_consumer (flush_among L cfg around) s.consumer s
    returns (stops s')
  process_turn cfg true false around s = await_event (around 1) s
  process_turn cfg false false around s = do
    s' ← with_consumer (drain_once (around 0)) s.consumer s
    await_event (around 1) s'

  -- The loop, for so many turns.
  unfoldable pub process_loop : LambdaExtensionConfig → Bool → List Turn → System → Run Next
  process_loop cfg managed [] s = returns (goes_on s)
  process_loop cfg managed (t ∷ ts) s = process_turn cfg managed t.cancelled t.around s >>= λ n.
      elim n [ goes_on s' ↦ process_loop cfg managed ts s' | stops s' ↦ returns (stops s') ]

  -- `processEvents`
  unfoldable pub process_events : LambdaExtensionConfig → Bool → List Turn → System → Run Next
  process_events cfg managed ts s =
      let r = run_time_api_init N cfg managed s.api in
      elim r.0 [
        | err e ↦ returns (stops (record s { api = r.1 }))
        | ok deadline ↦ process_loop cfg managed ts (record s { api = r.1 })
      ]
