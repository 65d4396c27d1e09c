-- ===== src/LambdaApi/HttpClient.antt =====
-- lambda-extensions/lambdaapi/httpclient.go: the client and its one request.
use sumologic_lambda_extensi.Base.{
  ℕ, ◌==◌, Option, none, some, List, [], ◌∷◌, ◌++◌, String, if◌then◌else◌, Error, request_failed,
  Result, ok, err, St, ℤ,
}
use sumologic_lambda_extensi.Base.Text.{Text, codes, is_empty}
use sumologic_lambda_extensi.SumoClient.Services.{Bytes, Request}

-- A response: its body, or the error of reading it, and the header "Lambda-Extension-Identifier".
pub record Response : Type 0 where
  pub status_code : ℕ
  pub body : Result Bytes
  pub identifier : Text

pub record RegisterResponse : Type 0 where
  pub function_name : Text
  pub function_version : Text
  pub handler : Text

-- `NextEventResponse`, as far as it is read.
pub record NextEventResponse : Type 0 where
  pub event_type : Text
  pub deadline_ms : ℤ

-- The body of a subscription.
pub record Subscription : Type 0 where
  pub protocol : String
  pub uri : String
  pub types : List Text
  pub timeout_ms : ℤ
  pub max_bytes : ℤ
  pub max_items : ℤ
  pub schema_version : String

-- net/http and encoding/json; `World` is what the network depends on.
pub record Network : Type 1 where
  pub World : Type 0
  pub request_error : Text → Option Error
  pub http_do : Request → World → Result Response × World
  pub marshal_events : List Text → Result Bytes
  pub marshal_subscription : Subscription → Result Bytes
  pub unmarshal_register : Bytes → Result RegisterResponse
  pub unmarshal_next : Bytes → Result NextEventResponse
  pub unmarshal_status : Bytes → Result Text

pub record Client : Type 0 where
  pub base_url : Text
  pub extension_id : Text
  pub extension_name : Text

-- A request, and what came back.
pub record Call : Type 0 where
  pub request : Request
  pub response : Result Response

-- The client, the network, and the calls so far, oldest first.
pub record ApiState (N : Network) : Type 0 where
  pub client : Client
  pub world : N.World
  pub calls : List Call

-- `NewClient`
unfoldable pub new_client : Text → Text → Client
new_client runtime_api name = record {
  base_url = codes "http://" ++ runtime_api ++ codes "/";
  extension_id = [];
  extension_name = name;
}

-- The identifier behind a response, from the one before it.
abbrev pub identifier_after : Text → Text → Text
identifier_after old new = if is_empty new then old else new

module _ (N : Network) where
  -- What follows `httpClient.Do`.
  abbrev pub accept : Result Response → ApiState N → Result Bytes × ApiState N
  accept (err e) s = (err e, s)
  accept (ok response) s = elim response.body [
    | err e ↦ (err e, s)
    | ok body ↦
        if response.status_code == 200
        then (
          ok body,
          record s {
            client = record s.client {
              extension_id = identifier_after s.client.extension_id response.identifier;
            };
          },
        )
        else (err (request_failed response.status_code body), s)
  ]

  unfoldable pub perform : Request → St (ApiState N) (Result Bytes)
  perform request s =
      let r = N.http_do request s.world in
      accept r.0 (record s {
        world = r.1;
        calls = s.calls ++ record { request = request; response = r.0 } ∷ [];
      })

  -- `MakeRequestWithContext`, and `MakeRequest`, which does the same with no context.
  unfoldable pub make_api_request :
      List (String × Text) → Bytes → String → Text → St (ApiState N) (Result Bytes)
  make_api_request headers body method url s = elim (N.request_error url) [
    | some e ↦ (err e, s)
    | none ↦
        perform
          (record {
            method = method;
            url = url;
            headers = ("Content-Type", codes "application/json") ∷ headers;
            body = body;
          })
          s
  ]
