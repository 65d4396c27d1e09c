-- ===== src/Examples/Settings.antt =====
-- The settings and the loops of the small packages.
use sumologic_lambda_extensi.Base.{
  ℕ, ◌≡◌, refl, ◌+◌, true, none, some, [], ltb, if◌then◌else◌, ℤ, pos, negsuc, retry_limit, key_eq,
  arith,
}
use sumologic_lambda_extensi.Base.Text.{codes, trim_space}
use sumologic_lambda_extensi.Config.Numbers.{parse_bool}
use sumologic_lambda_extensi.Utils.{Func, retry}
use sumologic_lambda_extensi.Utils.RetryLaws.{EndsBy, retry-Ends}
use sumologic_lambda_extensi.Config.Defs.{
  LambdaExtensionConfig, Env, Parsers, Checked, initial_config, set_defaults,
}
use sumologic_lambda_extensi.Config.Validate.{
  int_field, get_config, validate_config, check_all, run_steps, check_endpoint, bool_field,
  int_field_outer, check_buckets, check_log_level, clamp_given, check_types, outcome,
}
use sumologic_lambda_extensi.Config.Validate.Accepts.{IsAccepted, get_config-IsAccepted}
use sumologic_lambda_extensi.Config.Validate.Integers.{signed, int_field-signed}
use sumologic_lambda_extensi.Examples.Data.{settings}
use sumologic_lambda_extensi.Config.Validate.Bounds.{IsTelemetryOk, get_config-IsTelemetryOk}

-- It counts its calls, and succeeds in the third.
abbrev third_time : Func ℕ
third_time attempt s = ((true, if ltb attempt 3 then some retry_limit else none), s + 1)

retry-Ends_example : EndsBy third_time 1 0 6 (retry third_time (pos 5) 0)
retry-Ends_example = retry-Ends third_time (pos 5) 0

abbrev pub parsers : Parsers
parsers = record { is_request_uri = λ t. true; parse_level = λ t. none }

abbrev env : Env
env name = if key_eq name "TELEMETRY_MAX_ITEMS" then codes "50" else []

get_config-IsTelemetryOk_example : IsTelemetryOk (get_config parsers env).0
get_config-IsTelemetryOk_example = get_config-IsTelemetryOk parsers env

abbrev checked : Checked
checked = record { config = settings; all_errors = []; failure = none }

abbrev minus_nine : Env
minus_nine name = if key_eq name "SUMO_NUM_RETRIES" then signed (negsuc 8) else []

abbrev set_retries : ℤ → LambdaExtensionConfig → LambdaExtensionConfig
set_retries v cfg = record cfg { num_retry = v }

int_field-signed_example :
    int_field minus_nine "SUMO_NUM_RETRIES" set_retries checked
    ≡ record checked { config = set_retries (negsuc 8) settings }
int_field-signed_example =
    int_field-signed minus_nine "SUMO_NUM_RETRIES" set_retries checked (negsuc 8) (omega arith) refl

-- An endpoint, the failover with its bucket, and no more.
abbrev good_env : Env
good_env name =
    if key_eq name "SUMO_HTTP_ENDPOINT"
    then codes "https://sumo"
    else if key_eq name "SUMO_ENABLE_FAILOVER"
    then codes "true"
    else if key_eq name "SUMO_S3_BUCKET_NAME"
    then codes "bucket"
    else if key_eq name "SUMO_S3_BUCKET_REGION"
    then codes "us-east-1"
    else []

good_env-fine : (get_config parsers good_env).1 ≡ none
unfolding get_config validate_config check_all run_steps check_endpoint bool_field int_field
    int_field_outer check_buckets check_log_level clamp_given check_types outcome set_defaults
    initial_config parse_bool trim_space
good_env-fine = refl

get_config-IsAccepted_example : IsAccepted parsers good_env (get_config parsers good_env).0
get_config-IsAccepted_example = get_config-IsAccepted parsers good_env good_env-fine
