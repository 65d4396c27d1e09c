-- ===== src/Examples/Started.antt =====
-- The start of the program at concrete environments.
use sumologic_lambda_extensi.Base.{
  ok, ◌≡◌, refl, true, false, none, some, [], if◌then◌else◌, key_eq,
}
use sumologic_lambda_extensi.Base.Text.{Text, codes, trim_space}
use sumologic_lambda_extensi.Config.Numbers.{parse_bool}
use sumologic_lambda_extensi.Config.Defs.{Env, initial_config, set_defaults}
use sumologic_lambda_extensi.Config.Validate.{
  get_config, validate_config, check_all, run_steps, check_endpoint, bool_field, int_field,
  int_field_outer, check_buckets, check_log_level, clamp_given, check_types, outcome,
}
use sumologic_lambda_extensi.Config.Validate.Given.{IsGiven, get_config-IsGiven}
use sumologic_lambda_extensi.Config.Validate.Problems.{problems, failure_of}
use sumologic_lambda_extensi.Config.Validate.Problems.Exact.{get_config-problems}
use sumologic_lambda_extensi.Workers.Channel.{make}
use sumologic_lambda_extensi.Workers.Sender.{sumo_sender}
use sumologic_lambda_extensi.Main.{System}
use sumologic_lambda_extensi.Main.Startup.{
  Lookup, getenv, Sdk, init_uploader, Globals, set_up, main_init, new_api, new_system,
}
use sumologic_lambda_extensi.Main.Startup.Starting.{
  Starts, main_init-Starts, UploadsFrom, init_uploader-bucket,
}
use sumologic_lambda_extensi.Examples.Data.{services}
use sumologic_lambda_extensi.Examples.Settings.{parsers}
use sumologic_lambda_extensi.Examples.Queues.{one_report}
use sumologic_lambda_extensi.Examples.Api.{network}

-- A length that is no integer.
abbrev odd_env : Env
odd_env name = if key_eq name "SUMO_MAX_DATAQUEUE_LENGTH" then codes "many" else []

get_config-IsGiven_example : IsGiven parsers odd_env (get_config parsers odd_env).0
get_config-IsGiven_example = get_config-IsGiven parsers odd_env

get_config-problems_example : (get_config parsers odd_env).1 ≡ failure_of (problems parsers odd_env)
get_config-problems_example = get_config-problems parsers odd_env

abbrev negative_env : Env
negative_env name = if key_eq name "SUMO_MAX_DATAQUEUE_LENGTH" then codes "-1" else []

main_init-Starts_example :
    Starts services parsers one_report negative_env (main_init services parsers negative_env 0)
main_init-Starts_example = main_init-Starts services parsers one_report negative_env 0

-- The same settings as in the example of `GetConfig`, as a lookup.
abbrev good_lookup : Lookup
good_lookup name =
    if key_eq name "SUMO_HTTP_ENDPOINT"
    then some (codes "https://sumo")
    else if key_eq name "SUMO_ENABLE_FAILOVER"
    then some (codes "true")
    else if key_eq name "SUMO_S3_BUCKET_NAME"
    then some (codes "bucket")
    else if key_eq name "SUMO_S3_BUCKET_REGION"
    then some (codes "us-east-1")
    else none

good_lookup-fine : (get_config parsers (getenv good_lookup)).1 ≡ none
unfolding get_config validate_config check_all run_steps check_endpoint bool_field int_field
    int_field_outer check_buckets check_log_level clamp_given check_types outcome set_defaults
    initial_config parse_bool trim_space
good_lookup-fine = refl

good_lookup-enabled : (get_config parsers (getenv good_lookup)).0.enable_failover ≡ true
unfolding get_config validate_config check_all run_steps check_endpoint bool_field int_field
    int_field_outer check_buckets check_log_level clamp_given check_types outcome set_defaults
    initial_config parse_bool trim_space
good_lookup-enabled = refl

-- An SDK that configures every region.
abbrev sdk : Sdk
sdk = record {
  AwsConfig = Text;
  Uploader = Text;
  load_default_config = λ region. ok region;
  new_uploader = λ c. c;
}

init_uploader-bucket_example :
    UploadsFrom sdk
      (get_config parsers (getenv good_lookup)).0.s3_bucket_region
      (init_uploader sdk good_lookup)
init_uploader-bucket_example =
    init_uploader-bucket sdk parsers good_lookup good_lookup-fine good_lookup-enabled

abbrev started : Globals services parsers
started =
    set_up services parsers (get_config parsers (getenv good_lookup)).0 false (make 20) (make 10) 0

abbrev started_system : System (sumo_sender services started.config) network
started_system =
    new_system (sumo_sender services started.config) network started.consumer
      (new_api (sumo_sender services started.config) network (getenv good_lookup) (codes "ext") 0)
