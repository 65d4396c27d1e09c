-- ===== src/SumoClient/Endpoint.antt =====
-- lambda-extensions/sumoclient/sumoclient.go: the endpoint, the cold start flag and one request.
pub mod Caching
use sumologic_lambda_extensi.Base.{
  ℕ, Bool, true, false, ◌&&◌, ◌||◌, Option, none, some, List, [], ◌∷◌, ◌++◌, leb, ltb,
  if◌then◌else◌, Error, message, wrapped, Result, ok, err, St, ℤ, pos, negsuc, String,
}
use sumologic_lambda_extensi.Base.Text.{Text, codes, is_empty, decimal, decimal_2}
use sumologic_lambda_extensi.Config.Defs.{LambdaExtensionConfig}
use sumologic_lambda_extensi.SumoClient.Services.{
  Bytes, Date, Request, DecryptInput, Services, Upload, ClientState,
}

-- config/version.go: the layer version behind the extension's name.
unfoldable pub layer_version_suffix : Services → Text
layer_version_suffix S = S.extension_name ++ codes "-prod:" ++ codes "11"

abbrev pub is_zero : ℤ → Bool
is_zero (pos n) = leb n 0
is_zero (negsuc n) = false

module _ (S : Services) where
  abbrev pub in_world : ClientState S → S.World → ClientState S
  in_world s w = record s { world = w }

  -- `time.Now()`
  unfoldable pub now : St (ClientState S) ℕ
  now s = (S.clock s.world, in_world s (S.pass s.world))

  -- `getColdStart`
  unfoldable pub get_cold_start : St (ClientState S) Bool
  get_cold_start s =
      let t = if s.is_cold_start then record s { is_cold_start = false } else s in
      (t.is_cold_start, t)

  module _ (cfg : LambdaExtensionConfig) where
    -- `getLogGroup`
    unfoldable pub log_group : Text
    log_group = codes "/aws/lambda/" ++ cfg.function_name

    -- `getLogStream`
    unfoldable pub log_stream : St (ClientState S) Text
    log_stream s =
        let (t, s') = now s in
        let d = S.utc t in
        (
          decimal d.year
              ++ b'/'
                ∷ (decimal_2 d.month
                    ++ b'/'
                      ∷ (decimal_2 d.day
                          ++ b'/' ∷ b'[' ∷ (cfg.function_version ++ b']' ∷ S.extension_name))),
          s',
        )

    abbrev pub decrypt_input : Bytes → DecryptInput
    decrypt_input blob = record {
      ciphertext_blob = blob;
      key_id = cfg.kms_key_id;
      lambda_function_name = S.getenv "AWS_LAMBDA_FUNCTION_NAME";
    }

    -- The third `if` of `getHttpEndpoint`. The `:=` on the plaintext declares a new variable, so
    -- the package's variable keeps its value, and the new cache time is the present.
    unfoldable pub plaintext : Bytes → St (ClientState S) (Result Text)
    plaintext blob s =
        let r = S.kms_decrypt (decrypt_input blob) s.world in
        let s1 = in_world s r.1 in
        elim r.0 [
          | err e ↦ (err (wrapped "got error decrypting data" e), s1)
          | ok text ↦ (
            ok text,
            record s1 { endpoint_cache_time = S.clock s1.world; world = S.pass s1.world },
          )
        ]

    unfoldable pub decrypt_endpoint : St (ClientState S) (Result Text)
    decrypt_endpoint s =
        let r = S.load_aws_config s.world in
        let s1 = in_world s r.1 in
        elim r.0 [
          | some e ↦ (err (wrapped "configuration error in aws client" e), s1)
          | none ↦ elim (S.decode_base64 cfg.sumo_http_endpoint) [
            | err e ↦ (err (wrapped "error converting string to blob" e), s1)
            | ok blob ↦ plaintext blob s1
          ]
        ]

    -- `getHttpEndpoint`. Each `time.Until` reads the clock.
    unfoldable pub get_http_endpoint : St (ClientState S) (Result Text)
    get_http_endpoint s =
        if is_empty cfg.kms_key_id
        then (ok cfg.sumo_http_endpoint, s)
        else let t1 = now s in
          if ltb t1.0 s.endpoint_cache_time
          then (ok s.decrypted_endpoint, t1.1)
          else let t2 = now t1.1 in
            if leb s.endpoint_cache_time t2.0 || is_zero cfg.kms_cache_seconds
            then decrypt_endpoint t2.1
            else (err (message "failed to select a valid Sumo HTTP endpoint"), t2.1)

    abbrev pub category_header : List (String × Text)
    category_header =
        if is_empty cfg.source_category_override
        then []
        else ("X-Sumo-Category", cfg.source_category_override) ∷ []

    abbrev pub post : Text → Text → Bytes → Request
    post endpoint stream body = record {
      method = "POST";
      url = endpoint;
      headers =
          ("Content-Encoding", codes "gzip")
          ∷ ("X-Sumo-Client", layer_version_suffix S)
          ∷ ("X-Sumo-Name", stream)
          ∷ ("X-Sumo-Host", log_group)
          ∷ category_header;
      body = body;
    }

    -- `makeRequest` behind the checks on the endpoint.
    unfoldable pub send_request : Text → Bytes → St (ClientState S) (Result ℕ)
    send_request endpoint body s =
        let (stream, s1) = log_stream s in
        let request = post endpoint stream body in
        let r = S.http_do request s1.world in
        (
          r.0,
          record s1 {
            world = r.1;
            requests = s1.requests ++ record { request = request; answer = r.0 } ∷ [];
          },
        )

    abbrev pub with_endpoint : Bytes → Result Text → St (ClientState S) (Result ℕ)
    with_endpoint body (err e) s = (err (wrapped "failed to get SUMO HTTP Endpoint" e), s)
    with_endpoint body (ok endpoint) s = elim (S.request_error endpoint) [
      | some e ↦ (err (wrapped "http.NewRequest()" e), s)
      | none ↦ send_request endpoint body s
    ]

    -- `makeRequest`: the status code of the response, or the error.
    unfoldable pub make_request : Bytes → St (ClientState S) (Result ℕ)
    make_request body s = let r = get_http_endpoint s in with_endpoint body r.0 r.1
