-- ===== src/Config/Defs.antt =====
-- lambda-extensions/config/config.go: the record of all settings, the environment that it is read
-- from, and the steps of `setDefaults` and `validateConfig` in the order of the code.
use sumologic_lambda_extensi.Base.{
  ℕ, ◌+◌, ◌-◌, ◌*◌, Bool, true, false, Option, none, some, List, [], ◌∷◌, ◌++◌, map, String,
  if◌then◌else◌, ℤ, pos, negsuc,
}
use sumologic_lambda_extensi.Base.Text.{Text, codes, is_empty, split}
use sumologic_lambda_extensi.Config.Numbers.{NumError}

-- Durations are in nanoseconds. `log_level` is logrus's number of a level. The two limits that the
-- code only sets to positive constants are natural numbers.
pub record LambdaExtensionConfig : Type 0 where
  pub sumo_http_endpoint : Text
  pub kms_key_id : Text
  pub enable_failover : Bool
  pub s3_bucket_name : Text
  pub s3_bucket_region : Text
  pub num_retry : ℤ
  pub aws_lambda_runtime_api : Text
  pub log_types : List Text
  pub function_name : Text
  pub function_version : Text
  pub log_level : ℕ
  pub max_data_queue_length : ℤ
  pub max_concurrent_requests : ℤ
  pub max_retry_attempts : ℕ
  pub retry_sleep_time : ℤ
  pub connection_timeout_value : ℤ
  pub max_data_payload_size : ℕ
  pub lambda_region : Text
  pub source_category_override : Text
  pub enhance_json_logs : Bool
  pub enable_span_drops : Bool
  pub kms_cache_seconds : ℤ
  pub telemetry_timeout_ms : ℤ
  pub telemetry_max_bytes : ℤ
  pub telemetry_max_items : ℤ

-- `os.Getenv`: a variable that is not set reads as the empty text.
abbrev pub Env : Type 0
Env = String → Text

-- `url.ParseRequestURI`, as a test, and `logrus.ParseLevel`.
pub record Parsers : Type 0 where
  pub is_request_uri : Text → Bool
  pub parse_level : Text → Option ℕ

-- The messages that `validateConfig` collects.
pub data ConfigError : Type 0 where
  not_set : String → ConfigError
  not_valid : String → ConfigError
  unparsable : String → NumError → ConfigError
  unknown_level : Text → ConfigError
  unsupported_type : Text → ConfigError

-- The variable `err` of `validateConfig`: one call's error, or all the messages joined.
pub data ConfigFailure : Type 0 where
  cause : ConfigError → ConfigFailure
  joined : List ConfigError → ConfigFailure

abbrev pub default_log_types : List Text
default_log_types = map codes ("platform" ∷ "function" ∷ [])

abbrev pub valid_log_types : List Text
valid_log_types = map codes ("platform" ∷ "function" ∷ "extension" ∷ [])

-- time.Millisecond
abbrev pub millisecond : ℕ
millisecond = 1000000

abbrev pub times_ms : ℤ → ℤ
times_ms (pos n) = pos (n * millisecond)
times_ms (negsuc n) = negsuc ((n + 1) * millisecond - 1)

-- What `GetConfig` builds before the defaults; the fields that it does not name are zero values.
unfoldable pub initial_config : Env → LambdaExtensionConfig
initial_config env = record {
  sumo_http_endpoint = env "SUMO_HTTP_ENDPOINT";
  kms_key_id = env "KMS_KEY_ID";
  enable_failover = false;
  s3_bucket_name = env "SUMO_S3_BUCKET_NAME";
  s3_bucket_region = env "SUMO_S3_BUCKET_REGION";
  num_retry = pos 0;
  aws_lambda_runtime_api = env "AWS_LAMBDA_RUNTIME_API";
  log_types = [];
  function_name = env "AWS_LAMBDA_FUNCTION_NAME";
  function_version = env "AWS_LAMBDA_FUNCTION_VERSION";
  log_level = 0;
  max_data_queue_length = pos 0;
  max_concurrent_requests = pos 0;
  max_retry_attempts = 5;
  retry_sleep_time = pos 0;
  connection_timeout_value = pos (10000 * millisecond);
  max_data_payload_size = 1024 * 1024;
  lambda_region = env "AWS_REGION";
  source_category_override = env "SOURCE_CATEGORY_OVERRIDE";
  enhance_json_logs = false;
  enable_span_drops = false;
  kms_cache_seconds = pos 0;
  telemetry_timeout_ms = pos 0;
  telemetry_max_bytes = pos 0;
  telemetry_max_items = pos 0;
}

-- `setDefaults`. Each `if` of the code writes a field of its own.
unfoldable pub set_defaults : Env → LambdaExtensionConfig → LambdaExtensionConfig
unfolding split
set_defaults env cfg = record cfg {
  telemetry_timeout_ms =
      if unset "TELEMETRY_TIMEOUT_MS" then pos 1000 else cfg.telemetry_timeout_ms;
  telemetry_max_bytes = if unset "TELEMETRY_MAX_BYTES" then pos 262144 else cfg.telemetry_max_bytes;
  telemetry_max_items = if unset "TELEMETRY_MAX_ITEMS" then pos 10000 else cfg.telemetry_max_items;
  num_retry = if unset "SUMO_NUM_RETRIES" then pos 3 else cfg.num_retry;
  log_level = if unset "SUMO_LOG_LEVEL" then 4 else cfg.log_level;
  max_data_queue_length =
      if unset "SUMO_MAX_DATAQUEUE_LENGTH" then pos 20 else cfg.max_data_queue_length;
  max_concurrent_requests =
      if unset "SUMO_MAX_CONCURRENT_REQUESTS" then pos 3 else cfg.max_concurrent_requests;
  enable_failover = if unset "SUMO_ENABLE_FAILOVER" then false else cfg.enable_failover;
  aws_lambda_runtime_api =
      if is_empty cfg.aws_lambda_runtime_api
      then codes "127.0.0.1:9001"
      else cfg.aws_lambda_runtime_api;
  log_types =
      if unset "SUMO_LOG_TYPES" then default_log_types else split b',' (env "SUMO_LOG_TYPES");
  retry_sleep_time =
      if unset "SUMO_RETRY_SLEEP_TIME_MS" then pos (300 * millisecond) else cfg.retry_sleep_time;
  enhance_json_logs = if unset "SUMO_ENHANCE_JSON_LOGS" then true else cfg.enhance_json_logs;
  enable_span_drops = if unset "SUMO_SPAN_DROP" then false else cfg.enable_span_drops;
  kms_cache_seconds = if unset "KMS_CACHE_SECONDS" then pos 5 else cfg.kms_cache_seconds;
}
  where
    unset : String → Bool
    unset name = is_empty (env name)

-- The variables of `validateConfig`.
pub record Checked : Type 0 where
  pub config : LambdaExtensionConfig
  pub all_errors : List ConfigError
  pub failure : Option ConfigFailure

abbrev pub add_error : ConfigError → Checked → Checked
add_error e c = record c { all_errors = c.all_errors ++ e ∷ [] }

-- `err = …` and, if it is one, the message about it.
abbrev pub assign_error : String → Option NumError → Checked → Checked
assign_error name none c = record c { failure = none }
assign_error name (some e) c = record c {
  all_errors = c.all_errors ++ unparsable name e ∷ [];
  failure = some (cause (unparsable name e));
}
