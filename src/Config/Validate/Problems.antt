-- ===== src/Config/Validate/Problems.antt =====
-- The messages of `validateConfig`, from the environment alone.
pub mod Adding
pub mod Checks
pub mod Exact
use sumologic_lambda_extensi.Base.{
  ℕ, Bool, true, false, Option, none, some, List, [], ◌∷◌, ◌++◌, String, if◌then◌else◌,
}
use sumologic_lambda_extensi.Base.Text.{Text, codes, is_empty, trim_space, split}
use sumologic_lambda_extensi.Utils.{string_in_slice}
use sumologic_lambda_extensi.Config.Numbers.{NumError, parse_int, parse_bool}
use sumologic_lambda_extensi.Config.Defs.{
  Env, Parsers, ConfigError, not_set, not_valid, unparsable, unknown_level, unsupported_type,
  ConfigFailure, joined, default_log_types, valid_log_types,
}

abbrev pub problem_if : Bool → ConfigError → List ConfigError
problem_if true e = e ∷ []
problem_if false e = []

abbrev pub parse_problem : String → Option NumError → List ConfigError
parse_problem name none = []
parse_problem name (some e) = unparsable name e ∷ []

abbrev pub flatten : {A : Type 0} → List (List A) → List A
flatten [] = []
flatten (xs ∷ xss) = xs ++ flatten xss

module _ (ps : Parsers) (env : Env) where
  abbrev pub if_set : String → List ConfigError → List ConfigError
  if_set name ms = if is_empty (env name) then [] else ms

  abbrev pub int_problem : ℕ → String → List ConfigError
  int_problem bits name = if_set name (parse_problem name (parse_int bits (env name)).error)

  abbrev pub bool_problem : String → List ConfigError
  bool_problem name = if_set name (parse_problem name (parse_bool (env name)).error)

  abbrev pub endpoint_problem : List ConfigError
  endpoint_problem =
      if is_empty (env "SUMO_HTTP_ENDPOINT")
      then not_set "SUMO_HTTP_ENDPOINT" ∷ []
      else if is_empty (env "KMS_KEY_ID")
      then (if ps.is_request_uri (env "SUMO_HTTP_ENDPOINT")
          then []
          else not_valid "SUMO_HTTP_ENDPOINT" ∷ [])
      else []

  -- Whether the failover is enabled; a text that does not parse gives false.
  abbrev pub enabled : Bool
  enabled =
      if is_empty (env "SUMO_ENABLE_FAILOVER")
      then false
      else (parse_bool (env "SUMO_ENABLE_FAILOVER")).value

  abbrev pub bucket_problems : List ConfigError
  bucket_problems =
      if enabled
      then problem_if (is_empty (env "SUMO_S3_BUCKET_NAME")) (not_set "SUMO_S3_BUCKET_NAME")
        ++ problem_if (is_empty (env "SUMO_S3_BUCKET_REGION")) (not_set "SUMO_S3_BUCKET_REGION")
      else []

  abbrev pub level_problem : List ConfigError
  level_problem = if_set "SUMO_LOG_LEVEL" (elim (ps.parse_level (env "SUMO_LOG_LEVEL")) [
    | none ↦ unknown_level (env "SUMO_LOG_LEVEL") ∷ []
    | some level ↦ []
  ])

  abbrev pub type_problems : List Text → List ConfigError
  type_problems [] = []
  type_problems (t ∷ ts) =
      (if string_in_slice (trim_space t) valid_log_types then [] else unsupported_type t ∷ [])
      ++ type_problems ts

  abbrev pub given_types : List Text
  given_types =
      if is_empty (env "SUMO_LOG_TYPES")
      then default_log_types
      else split b',' (env "SUMO_LOG_TYPES")

  -- All messages, in their order.
  abbrev pub first_problems : List (List ConfigError)
  first_problems = endpoint_problem ∷ bool_problem "SUMO_ENABLE_FAILOVER" ∷ bucket_problems ∷ []

  abbrev pub later_problems : List (List ConfigError)
  later_problems =
      int_problem 32 "SUMO_NUM_RETRIES"
      ∷ int_problem 32 "SUMO_RETRY_SLEEP_TIME_MS"
      ∷ int_problem 32 "SUMO_MAX_DATAQUEUE_LENGTH"
      ∷ int_problem 32 "SUMO_MAX_CONCURRENT_REQUESTS"
      ∷ level_problem
      ∷ bool_problem "SUMO_ENHANCE_JSON_LOGS"
      ∷ bool_problem "SUMO_SPAN_DROP"
      ∷ int_problem 32 "KMS_CACHE_SECONDS"
      ∷ []

  abbrev pub telemetry_problems : List (List ConfigError)
  telemetry_problems =
      int_problem 32 "TELEMETRY_TIMEOUT_MS"
      ∷ []
      ∷ int_problem 64 "TELEMETRY_MAX_BYTES"
      ∷ []
      ∷ int_problem 32 "TELEMETRY_MAX_ITEMS"
      ∷ []
      ∷ []

  unfoldable pub problems : List ConfigError
  problems =
      ((flatten first_problems ++ flatten later_problems) ++ flatten telemetry_problems)
      ++ type_problems given_types

abbrev pub failure_of : List ConfigError → Option ConfigFailure
failure_of [] = none
failure_of (e ∷ es) = some (joined (e ∷ es))
