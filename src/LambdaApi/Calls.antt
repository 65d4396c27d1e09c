-- ===== src/LambdaApi/Calls.antt =====
-- lambda-extensions/lambdaapi/extensionapiclient.go, telemetryapiclient.go and logsapiclient.go, and the
-- registration in sumologic-extension.go.
use sumologic_lambda_extensi.Base.{
  Bool, true, false, List, [], ◌∷◌, ◌++◌, String, if◌then◌else◌, Result, ok, err, St, ℤ, pos,
}
use sumologic_lambda_extensi.Base.Text.{Text, codes}
use sumologic_lambda_extensi.Config.Defs.{LambdaExtensionConfig}
use sumologic_lambda_extensi.SumoClient.Services.{Bytes}
use sumologic_lambda_extensi.LambdaApi.HttpClient.{
  RegisterResponse, NextEventResponse, Subscription, Network, ApiState, make_api_request,
}

abbrev extension_url : Text
extension_url = codes "2020-01-01/extension/"

-- `lambdaEvents` and `managedInstanceLambdaEvents`.
abbrev pub events : Bool → List Text
events managed = if managed then codes "SHUTDOWN" ∷ [] else codes "INVOKE" ∷ codes "SHUTDOWN" ∷ []

module _ (N : Network) where
  -- `json.Unmarshal` of a response, or the error of the request.
  abbrev pub decode {ℓ} : {A : Type ℓ} → (Bytes → Result A) → Result Bytes → Result A
  decode f (err e) = err e
  decode f (ok body) = f body

  abbrev pub with_body :
      {A : Type 0}
      → Result Bytes
      → (Bytes → St (ApiState N) (Result A))
      → St (ApiState N) (Result A)
  with_body (err e) f s = (err e, s)
  with_body (ok body) f s = f body s

  abbrev pub identified : ApiState N → List (String × Text)
  identified s = ("Lambda-Extension-Identifier", s.client.extension_id) ∷ []

  -- `RegisterExtension`
  unfoldable pub register_extension : Bool → St (ApiState N) (Result RegisterResponse)
  register_extension managed = with_body (N.marshal_events (events managed)) λ body s.
      let r =
        make_api_request N (("Lambda-Extension-Name", s.client.extension_name) ∷ []) body "POST"
          (s.client.base_url ++ extension_url ++ codes "register") s in
      (decode N.unmarshal_register r.0, r.1)

  -- `NextEvent`
  unfoldable pub next_event : St (ApiState N) (Result NextEventResponse)
  next_event s =
      let r =
        make_api_request N (identified s) [] "GET"
          (s.client.base_url ++ extension_url ++ codes "event/next") s in
      (decode N.unmarshal_next r.0, r.1)

  abbrev pub report_error : Text → Text → St (ApiState N) (Result Text)
  report_error path error_type s =
      let r =
        make_api_request N
          (("Lambda-Extension-Identifier", s.client.extension_id)
            ∷ ("Lambda-Extension-Function-Error-Type", error_type)
            ∷ [])
          [] "POST" (s.client.base_url ++ extension_url ++ path) s in
      (decode N.unmarshal_status r.0, r.1)

  -- `InitError` and `ExitError`; the slash of the path stands behind that of `extensionURL`.
  unfoldable pub init_error : Text → St (ApiState N) (Result Text)
  init_error error_type = report_error (codes "/init/error") error_type

  unfoldable pub exit_error : Text → St (ApiState N) (Result Text)
  exit_error error_type = report_error (codes "/exit/error") error_type

  abbrev pub subscription : List Text → ℤ → ℤ → ℤ → String → Subscription
  subscription types timeout_ms max_bytes max_items version = record {
    protocol = "HTTP";
    uri = "http://sandbox:4243";
    types = types;
    timeout_ms = timeout_ms;
    max_bytes = max_bytes;
    max_items = max_items;
    schema_version = version;
  }

  abbrev pub subscribe : Text → Subscription → St (ApiState N) (Result Bytes)
  subscribe path value =
      with_body (N.marshal_subscription value)
        λ body s. make_api_request N (identified s) body "PUT" (s.client.base_url ++ path) s

  -- `SubscribeToTelemetryAPI`
  unfoldable pub subscribe_to_telemetry_api :
      List Text → ℤ → ℤ → ℤ → Bool → St (ApiState N) (Result Bytes)
  subscribe_to_telemetry_api types timeout_ms max_bytes max_items managed =
      subscribe (codes "2022-07-01/telemetry") (
        subscription types timeout_ms max_bytes max_items
          (if managed then "2025-01-29" else "2022-07-01"))

  -- `SubscribeToLogsAPI`
  unfoldable pub subscribe_to_logs_api : List Text → St (ApiState N) (Result Bytes)
  subscribe_to_logs_api types =
      subscribe (codes "2020-08-15/logs")
        (subscription types (pos 1000) (pos 1048576) (pos 10000) "2021-03-18")

  abbrev deadline : Result NextEventResponse → Result ℤ
  deadline (err e) = err e
  deadline (ok event) = ok event.deadline_ms

  -- `runTimeAPIInit` behind the registration, and behind the subscription.
  abbrev pub after_subscribe : Bool → Result Bytes → St (ApiState N) (Result ℤ)
  after_subscribe managed (err e) s = (err e, s)
  after_subscribe true (ok body) s = (ok (pos 0), s)
  after_subscribe false (ok body) s = let r = next_event s in (deadline r.0, r.1)

  abbrev pub after_register :
      LambdaExtensionConfig → Bool → Result RegisterResponse → St (ApiState N) (Result ℤ)
  after_register cfg managed (err e) s = (err e, s)
  after_register cfg managed (ok response) s =
      let r =
        subscribe_to_telemetry_api cfg.log_types cfg.telemetry_timeout_ms cfg.telemetry_max_bytes
          cfg.telemetry_max_items managed s in
      after_subscribe managed r.0 r.1

  -- `runTimeAPIInit`.
  unfoldable pub run_time_api_init : LambdaExtensionConfig → Bool → St (ApiState N) (Result ℤ)
  run_time_api_init cfg managed s =
      let r = register_extension managed s in after_register cfg managed r.0 r.1
