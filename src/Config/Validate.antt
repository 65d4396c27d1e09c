-- ===== src/Config/Validate.antt =====
-- lambda-extensions/config/config.go: `validateConfig` and `GetConfig`, a function for each `if` of
-- the code, in the order of the code.
pub mod Keeps
pub mod Bounds
pub mod Messages
pub mod Accepts
pub mod Integers
pub mod Given
pub mod Problems
use sumologic_lambda_extensi.Base.{
  ℕ, ◌+◌, Bool, true, false, Option, none, some, List, [], ◌∷◌, ◌++◌, String, if◌then◌else◌, not,
  ◌&&◌, ℤ, pos, maxℤ, minℤ, is_none,
}
use sumologic_lambda_extensi.Base.Text.{Text, codes, is_empty, trim_space}
use sumologic_lambda_extensi.Utils.{string_in_slice}
use sumologic_lambda_extensi.Config.Numbers.{NumError, Parsed, parse_int, parse_bool}
use sumologic_lambda_extensi.Config.Defs.{
  LambdaExtensionConfig, Env, Parsers, ConfigError, not_set, not_valid, unparsable, unknown_level,
  unsupported_type, ConfigFailure, cause, joined, valid_log_types, times_ms, initial_config,
  set_defaults, Checked, add_error, assign_error,
}

-- The endpoint must be set, and be a URI unless it is encrypted.
unfoldable pub check_endpoint : Parsers → Checked → Checked
check_endpoint ps c =
    check_uri (if is_empty endpoint then add_error (not_set "SUMO_HTTP_ENDPOINT") c else c)
  where
    endpoint : Text
    endpoint = c.config.sumo_http_endpoint

    check_uri : Checked → Checked
    check_uri d =
        if not (is_empty endpoint) && is_empty c.config.kms_key_id
        then if ps.is_request_uri endpoint then record d { failure = none } else record d {
          all_errors = d.all_errors ++ not_valid "SUMO_HTTP_ENDPOINT" ∷ [];
          failure = some (cause (not_valid "SUMO_HTTP_ENDPOINT"));
        }
        else d

-- `cfg.F, err = …`: the field is written also beside an error.
abbrev pub assign_outer :
    {A : Type 0}
    → String
    → (A → LambdaExtensionConfig → LambdaExtensionConfig)
    → Parsed A
    → Checked
    → Checked
assign_outer name set p c = assign_error name p.error (record c { config = set p.value c.config })

unfoldable pub bool_field :
    Env → String → (Bool → LambdaExtensionConfig → LambdaExtensionConfig) → Checked → Checked
bool_field env name set c =
    if is_empty (env name) then c else assign_outer name set (parse_bool (env name)) c

unfoldable pub int_field_outer :
    Env → ℕ → String → (ℤ → LambdaExtensionConfig → LambdaExtensionConfig) → Checked → Checked
int_field_outer env bits name set c =
    if is_empty (env name) then c else assign_outer name set (parse_int bits (env name)) c

-- `custom, err := …`: a local `err`, and the field is written if it is nil.
abbrev pub assign_int :
    String → (ℤ → LambdaExtensionConfig → LambdaExtensionConfig) → Parsed ℤ → Checked → Checked
assign_int name set p c = elim p.error [
  | none ↦ record c { config = set p.value c.config }
  | some e ↦ add_error (unparsable name e) c
]

unfoldable pub int_field :
    Env → String → (ℤ → LambdaExtensionConfig → LambdaExtensionConfig) → Checked → Checked
int_field env name set c =
    if is_empty (env name) then c else assign_int name set (parse_int 32 (env name)) c

unfoldable pub check_buckets : Checked → Checked
check_buckets c =
    if c.config.enable_failover
    then region (
        if is_empty c.config.s3_bucket_name then add_error (not_set "SUMO_S3_BUCKET_NAME") c else c)
    else c
  where
    region : Checked → Checked
    region d =
        if is_empty d.config.s3_bucket_region
        then add_error (not_set "SUMO_S3_BUCKET_REGION") d
        else d

unfoldable pub check_log_level : Parsers → Env → Checked → Checked
check_log_level ps env c =
    if is_empty (env "SUMO_LOG_LEVEL") then c else elim (ps.parse_level (env "SUMO_LOG_LEVEL")) [
      | none ↦ add_error (unknown_level (env "SUMO_LOG_LEVEL")) c
      | some level ↦ record c { config = record c.config { log_level = level } }
    ]

-- A setting that was given is brought into its bounds, parsed or not.
unfoldable pub clamp_given :
    Env → String → (LambdaExtensionConfig → LambdaExtensionConfig) → Checked → Checked
clamp_given env name clamp c =
    if is_empty (env name) then c else record c { config = clamp c.config }

abbrev pub clamp : ℤ → ℕ → ℕ → ℤ
clamp x lo hi = minℤ (maxℤ x (pos lo)) (pos hi)

-- The loop over the log types; a type is trimmed for the test only.
unfoldable pub check_types : List Text → Checked → Checked
check_types [] c = c
check_types (t ∷ ts) c =
    check_types ts (
      if string_in_slice (trim_space t) valid_log_types
      then c
      else add_error (unsupported_type t) c)

unfoldable pub run_steps : List (Checked → Checked) → Checked → Checked
run_steps [] c = c
run_steps (step ∷ steps) c = run_steps steps (step c)

abbrev pub setting_steps : Parsers → Env → List (Checked → Checked)
setting_steps ps env =
    check_endpoint ps
    ∷ bool_field env "SUMO_ENABLE_FAILOVER" (λ v cfg. record cfg { enable_failover = v })
    ∷ check_buckets
    ∷ int_field env "SUMO_NUM_RETRIES" (λ v cfg. record cfg { num_retry = v })
    ∷ int_field env "SUMO_RETRY_SLEEP_TIME_MS"
        (λ v cfg. record cfg { retry_sleep_time = times_ms v })
    ∷ int_field env "SUMO_MAX_DATAQUEUE_LENGTH" (λ v cfg. record cfg { max_data_queue_length = v })
    ∷ int_field env "SUMO_MAX_CONCURRENT_REQUESTS"
        (λ v cfg. record cfg { max_concurrent_requests = v })
    ∷ check_log_level ps env
    ∷ bool_field env "SUMO_ENHANCE_JSON_LOGS" (λ v cfg. record cfg { enhance_json_logs = v })
    ∷ bool_field env "SUMO_SPAN_DROP" (λ v cfg. record cfg { enable_span_drops = v })
    ∷ int_field_outer env 32 "KMS_CACHE_SECONDS" (λ v cfg. record cfg { kms_cache_seconds = v })
    ∷ []

abbrev pub telemetry_steps : Env → List (Checked → Checked)
telemetry_steps env =
    int_field env "TELEMETRY_TIMEOUT_MS" (λ v cfg. record cfg { telemetry_timeout_ms = v })
    ∷ clamp_given env "TELEMETRY_TIMEOUT_MS"
        (λ cfg. record cfg { telemetry_timeout_ms = clamp cfg.telemetry_timeout_ms 25 30000 })
    ∷ int_field_outer env 64 "TELEMETRY_MAX_BYTES" (λ v cfg. record cfg { telemetry_max_bytes = v })
    ∷ clamp_given env "TELEMETRY_MAX_BYTES"
        (λ cfg. record cfg { telemetry_max_bytes = clamp cfg.telemetry_max_bytes 262144 1048576 })
    ∷ int_field env "TELEMETRY_MAX_ITEMS" (λ v cfg. record cfg { telemetry_max_items = v })
    ∷ clamp_given env "TELEMETRY_MAX_ITEMS"
        (λ cfg. record cfg { telemetry_max_items = clamp cfg.telemetry_max_items 1000 10000 })
    ∷ []

-- The result of `validateConfig`: the messages joined, or what `err` holds.
unfoldable pub outcome : Checked → Option ConfigFailure
outcome c = elim c.all_errors [ [] ↦ c.failure | e ∷ es ↦ some (joined c.all_errors) ]

-- `validateConfig` up to its last `if`.
unfoldable pub check_all : Parsers → Env → LambdaExtensionConfig → Checked
check_all ps env cfg =
    let c =
      run_steps (setting_steps ps env) (record { config = cfg; all_errors = []; failure = none }) in
    let d = run_steps (telemetry_steps env) c in check_types d.config.log_types d

unfoldable pub validate_config :
    Parsers → Env → LambdaExtensionConfig → LambdaExtensionConfig × Option ConfigFailure
validate_config ps env cfg = let c = check_all ps env cfg in (c.config, outcome c)

unfoldable pub get_config : Parsers → Env → LambdaExtensionConfig × Option ConfigFailure
get_config ps env = validate_config ps env (set_defaults env (initial_config env))
