-- ===== src/Main/Managed.antt =====
-- `processEvents` in managed instance mode, where the variable `consumer` is nil.
use sumologic_lambda_extensi.Base.{
  ℕ, ◌≡◌, refl, Bool, true, false, none, List, [], ◌∷◌, Error, Result, ok, err, Bool-cases, inl,
  inr,
}
use sumologic_lambda_extensi.Base.Text.{codes, text_eq}
use sumologic_lambda_extensi.Config.Defs.{LambdaExtensionConfig}
use sumologic_lambda_extensi.Workers.Channel.{Run, returns, blocks, panics, diverges}
use sumologic_lambda_extensi.Workers.Sender.{LogSender}
use sumologic_lambda_extensi.Workers.Consumer.{◌>>=◌}
use sumologic_lambda_extensi.Workers.Contended.{Around}
use sumologic_lambda_extensi.LambdaApi.HttpClient.{NextEventResponse, Network, ApiState}
use sumologic_lambda_extensi.LambdaApi.Calls.{next_event}
use sumologic_lambda_extensi.Main.{
  Turn, System, Next, goes_on, stops, after_event, process_turn, process_loop,
}

module _ (L : LogSender) (N : Network) (cfg : LambdaExtensionConfig) where
  -- The last call for the next event returned an error.
  abbrev pub EndsByError : System L N → Type 0
  EndsByError t = (u : ApiState N) × (e : Error) × (next_event N u ≡ (err e, t.api))

  -- It panics, goes on with no consumer, or ends by an error of the API.
  abbrev pub Fails : Run (Next L N) → Type 0
  Fails (returns (goes_on s)) = s.consumer ≡ none
  Fails (returns (stops s)) = EndsByError s
  Fails panics = Unit
  Fails _ = ⊥

  after_event-Fails :
      (a : Around) (r : Result NextEventResponse) (u : ApiState N) (s : System L N)
      → s.consumer ≡ none
      → next_event N u ≡ (r, s.api)
      → Fails (after_event L N a r s)
  after_event-Fails a (err e) u s h q = (u, e, q)
  after_event-Fails a (ok event) u s h q =
      elim (Bool-cases (text_eq event.event_type (codes "SHUTDOWN"))) [
        | inl down ↦ rw (down, h) tt
        | inr up ↦ rw up h
      ]

  process_turn-Fails :
      (cancelled : Bool) (around : ℕ → Around) (s : System L N)
      → s.consumer ≡ none
      → Fails (process_turn L N cfg true cancelled around s)
  unfolding process_turn
  process_turn-Fails true around s h = rw h tt
  process_turn-Fails false around s h =
      after_event-Fails (around 1) (next_event N s.api).0 s.api
        (record s { api = (next_event N s.api).1 }) h refl

  -- In managed instance mode and with no consumer, the loop of `processEvents`, over any number of
  -- turns, ends without a panic only when the call for the next event returns an error.
  pub process_loop-Fails :
      (ts : List Turn) (s : System L N) → s.consumer ≡ none → Fails (process_loop L N cfg true ts s)
  unfolding process_loop
  process_loop-Fails [] s h = h
  process_loop-Fails (t ∷ ts) s h =
      next (process_turn L N cfg true t.cancelled t.around s) (process_loop-Fails ts)
        (process_turn-Fails t.cancelled t.around s h)
    where
      next :
          (r : Run (Next L N))
          → ((u : System L N) → u.consumer ≡ none → Fails (process_loop L N cfg true ts u))
          → Fails r
          → Fails (
              r >>= λ n. elim n [
                | goes_on u ↦ process_loop L N cfg true ts u
                | stops u ↦ returns (stops u)
              ])
      next (returns (goes_on u)) again h = again u h
      next (returns (stops u)) again h = h
      next panics again h = tt
      next blocks again h = h
      next diverges again h = h
