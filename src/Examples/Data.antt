-- ===== src/Examples/Data.antt =====
-- A clock that counts, codecs that change nothing, and an endpoint that gives way once it is slept for.
use sumologic_lambda_extensi.Base.{
  ℕ, suc, ◌+◌, true, false, none, List, [], ◌∷◌, leb, if◌then◌else◌, pos, pos_part, foreign, Result,
  ok, err, arith,
}
use sumologic_lambda_extensi.Base.Text.{codes}
use sumologic_lambda_extensi.Json.{str, JsonMap, nil_map, entries, end, field}
use sumologic_lambda_extensi.Config.Defs.{LambdaExtensionConfig}
use sumologic_lambda_extensi.SumoClient.Services.{Bytes, Services, IsMonotone}

abbrev pub function_log : JsonMap
function_log =
    entries (field "type" (str (codes "function")) (field "record" (str (codes " hi ")) end))

abbrev pub bad_report : JsonMap
bad_report = entries (field "type" (str (codes "platform.report")) end)

abbrev pub two_items : List JsonMap
two_items = function_log ∷ nil_map ∷ function_log ∷ []

-- A map is three bytes; nil has no text.
abbrev pub marshal_example : JsonMap → Result Bytes
marshal_example nil_map = err (foreign [])
marshal_example (entries fs) = ok (1 ∷ 2 ∷ 3 ∷ [])

-- The endpoint answers 429 at first, and 200 from the time 1000 on.
abbrev pub answer_at : ℕ → ℕ
answer_at w = if leb 1000 w then 200 else 429

abbrev pub services : Services
services = record {
  World = ℕ;
  clock = λ w. w;
  pass = λ w. suc w;
  sleep = λ d w. w + pos_part d;
  utc = λ t. record { year = 2024; month = 5; day = 6; hour = 7; minute = 8 };
  local = λ t. record { year = 2024; month = 5; day = 6; hour = 7; minute = 8 };
  getenv = λ name. [];
  extension_name = codes "sumologic-extension";
  new_uuid = λ w. (ok (codes "id"), w);
  load_aws_config = λ w. (none, w + 1);
  decode_base64 = λ t. ok t;
  kms_decrypt = λ i w. (ok i.ciphertext_blob, w + 2);
  request_error = λ t. none;
  http_do = λ r w. (ok (answer_at w), w + 5);
  upload = λ b k d w. (none, w + 3);
  GzipWriter = Bytes;
  gzip_write = λ b. ok b;
  gzip_close = λ b. ok (9 ∷ b);
  unmarshal_array = λ b. ok (function_log ∷ []);
  unmarshal_object = λ t. err (foreign []);
  marshal = marshal_example;
  format_value = λ v. [];
}

pub services-IsMonotone : IsMonotone services
services-IsMonotone = record {
  pass_mono = λ w. omega arith;
  sleep_mono = λ d w. omega arith;
  uuid_mono = λ w. omega arith;
  aws_mono = λ w. omega arith;
  kms_mono = λ i w. omega arith;
  http_mono = λ r w. omega arith;
  upload_mono = λ b k d w. omega arith;
}

abbrev pub settings : LambdaExtensionConfig
settings = record {
  sumo_http_endpoint = codes "https://sumo";
  kms_key_id = codes "key";
  enable_failover = true;
  s3_bucket_name = codes "bucket";
  s3_bucket_region = codes "us-east-1";
  num_retry = pos 3;
  aws_lambda_runtime_api = codes "127.0.0.1:9001";
  log_types = codes "platform" ∷ codes "function" ∷ [];
  function_name = codes "f";
  function_version = codes "1";
  log_level = 4;
  max_data_queue_length = pos 20;
  max_concurrent_requests = pos 3;
  max_retry_attempts = 5;
  retry_sleep_time = pos 1000;
  connection_timeout_value = pos 10000;
  max_data_payload_size = 1024;
  lambda_region = codes "us-east-1";
  source_category_override = [];
  enhance_json_logs = true;
  enable_span_drops = false;
  kms_cache_seconds = pos 5;
  telemetry_timeout_ms = pos 1000;
  telemetry_max_bytes = pos 262144;
  telemetry_max_items = pos 10000;
}

-- The same with no failover.
abbrev pub without_failover : LambdaExtensionConfig
without_failover = record settings { enable_failover = false }
