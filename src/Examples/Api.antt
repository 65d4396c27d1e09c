-- ===== src/Examples/Api.antt =====
-- The client of the Lambda APIs, against a network that hands out an identifier.
use sumologic_lambda_extensi.Base.{ℕ, suc, false, none, [], ◌∷◌, pos, ok}
use sumologic_lambda_extensi.Base.Text.{codes}
use sumologic_lambda_extensi.LambdaApi.HttpClient.{Network, ApiState, new_client}
use sumologic_lambda_extensi.LambdaApi.Identity.{
  Tracked, registers, awaits_event, after_calls, after_calls-Tracked,
}

abbrev pub network : Network
network = record {
  World = ℕ;
  request_error = λ t. none;
  http_do =
      λ r w. (ok (record { status_code = 200; body = ok []; identifier = codes "id" }), suc w);
  marshal_events = λ ts. ok (1 ∷ []);
  marshal_subscription = λ s. ok (2 ∷ []);
  unmarshal_register = λ b. ok (record { function_name = []; function_version = []; handler = [] });
  unmarshal_next = λ b. ok (record { event_type = codes "INVOKE"; deadline_ms = pos 5 });
  unmarshal_status = λ b. ok [];
}

abbrev pub fresh : ApiState network
fresh = record { client = new_client (codes "127.0.0.1:9001") (codes "ext"); world = 0; calls = [] }

after_calls-Tracked_example :
    Tracked network fresh
      (after_calls network (registers false ∷ awaits_event ∷ awaits_event ∷ []) fresh)
after_calls-Tracked_example =
    after_calls-Tracked network (registers false ∷ awaits_event ∷ awaits_event ∷ []) fresh
