-- ===== src/Config/Validate/Problems/Exact.antt =====
-- The error of `GetConfig` is exactly the messages that the environment gives.
use sumologic_lambda_extensi.Base.{
  ◌≡◌, refl, ◌∙◌, ap, sym, subst, Bool, false, Bool-cases, inl, inr, none, some, List, [], ◌∷◌,
  ◌++◌, if◌then◌else◌, arith,
}
use sumologic_lambda_extensi.Base.Text.{Text, is_empty}
use sumologic_lambda_extensi.Config.Numbers.{parse_bool}
use sumologic_lambda_extensi.Config.Defs.{
  LambdaExtensionConfig, Env, Parsers, ConfigError, joined, not_set, Checked, initial_config,
  set_defaults,
}
use sumologic_lambda_extensi.Config.Validate.{
  check_endpoint, bool_field, check_types, run_steps, telemetry_steps, outcome, check_all,
  validate_config, get_config,
}
use sumologic_lambda_extensi.Config.Validate.Keeps.{
  Kept, settings-Keeps, check_endpoint-Keeps, bool_field-Keeps, run_steps-Keeps,
  telemetry_steps-Keeps,
}
use sumologic_lambda_extensi.Config.Validate.Accepts.{
  start, with_buckets, later_steps, before_types, check_all-types,
}
use sumologic_lambda_extensi.Config.Validate.Problems.{
  problem_if, flatten, bucket_problems, enabled, given_types, type_problems, first_problems,
  later_problems, telemetry_problems, problems, failure_of,
}
use sumologic_lambda_extensi.Config.Validate.Problems.Adding.{
  Adds, Adds-trans, Adds-none, AllAdds, run_steps-Adds, int_field-Adds, int_field_outer-Adds,
  bool_field-Adds, clamp_given-Adds, check_log_level-Adds, check_types-Adds,
}
use sumologic_lambda_extensi.Config.Validate.Problems.Checks.{
  check_endpoint-Adds, region_problems, check_buckets-Adds,
}

abbrev set_failover : Bool → LambdaExtensionConfig → LambdaExtensionConfig
set_failover v cfg = record cfg { enable_failover = v }

bool_field-failover :
    (env : Env) (c : Checked)
    → (bool_field env "SUMO_ENABLE_FAILOVER" set_failover c).config.enable_failover ≡ (
        if is_empty (env "SUMO_ENABLE_FAILOVER")
        then c.config.enable_failover
        else (parse_bool (env "SUMO_ENABLE_FAILOVER")).value)
unfolding bool_field
bool_field-failover env c = ground arith

-- The settings that the check of the buckets reads.
abbrev Bucket : Type 0
Bucket = record { name : Text; region : Text }

abbrev bucket_of : LambdaExtensionConfig → Bucket
bucket_of cfg = record { name = cfg.s3_bucket_name; region = cfg.s3_bucket_region }

abbrev problems_of : Bool → Bucket → List ConfigError
problems_of on b =
    if on
    then problem_if (is_empty b.name) (not_set "SUMO_S3_BUCKET_NAME")
      ++ problem_if (is_empty b.region) (not_set "SUMO_S3_BUCKET_REGION")
    else []

module _ (ps : Parsers) (env : Env) where
  abbrev checked : Checked
  checked = check_endpoint ps (start ps env)

  abbrev with_failover : Checked
  with_failover = bool_field env "SUMO_ENABLE_FAILOVER" set_failover checked

  failover-start : (start ps env).config.enable_failover ≡ false
  unfolding set_defaults initial_config
  failover-start = elim (Bool-cases (is_empty (env "SUMO_ENABLE_FAILOVER"))) [
    | inl unset ↦ rw unset refl
    | inr set' ↦ rw set' refl
  ]

  failover-enabled : with_failover.config.enable_failover ≡ enabled ps env
  failover-enabled =
      bool_field-failover env checked
      ∙ ap
          (λ b.
            if is_empty (env "SUMO_ENABLE_FAILOVER")
            then b
            else (parse_bool (env "SUMO_ENABLE_FAILOVER")).value)
          (check_endpoint-Keeps (λ cfg. cfg.enable_failover) ps (start ps env) ∙ failover-start)

  bucket-start : bucket_of with_failover.config ≡ bucket_of (start ps env).config
  bucket-start =
      bool_field-Keeps bucket_of env "SUMO_ENABLE_FAILOVER" set_failover (λ v cfg. refl) checked
      ∙ check_endpoint-Keeps bucket_of ps (start ps env)

  region_problems-env : region_problems with_failover.config ≡ bucket_problems ps env
  unfolding set_defaults initial_config
  region_problems-env =
      ap (λ b. problems_of b (bucket_of with_failover.config)) failover-enabled
      ∙ ap (problems_of (enabled ps env)) bucket-start

  first-Adds : Adds (flatten (first_problems ps env)) (start ps env) (with_buckets ps env)
  unfolding set_defaults initial_config
  first-Adds =
      let c =
        subst (λ ms. Adds ms with_failover (with_buckets ps env)) region_problems-env
          (check_buckets-Adds with_failover) in
      Adds-trans (check_endpoint-Adds ps (start ps env)) (
        Adds-trans (bool_field-Adds ps env "SUMO_ENABLE_FAILOVER" checked set_failover)
          (Adds-trans c (Adds-none (with_buckets ps env) (with_buckets ps env).config)))

  later_steps-AllAdds : AllAdds (later_steps ps env) (later_problems ps env)
  later_steps-AllAdds = (
    λ c. int_field-Adds ps env _ c _,
    (
      λ c. int_field-Adds ps env _ c _,
      (
        λ c. int_field-Adds ps env _ c _,
        (
          λ c. int_field-Adds ps env _ c _,
          (
            λ c. check_log_level-Adds ps env c,
            (
              λ c. bool_field-Adds ps env _ c _,
              (λ c. bool_field-Adds ps env _ c _, (λ c. int_field_outer-Adds ps env _ c 32 _, tt)),
            ),
          ),
        ),
      ),
    ),
  )

  telemetry_steps-AllAdds : AllAdds (telemetry_steps env) (telemetry_problems ps env)
  telemetry_steps-AllAdds = (
    λ c. int_field-Adds ps env _ c _,
    (
      λ c. clamp_given-Adds ps env _ c _,
      (
        λ c. int_field_outer-Adds ps env _ c 64 _,
        (
          λ c. clamp_given-Adds ps env _ c _,
          (λ c. int_field-Adds ps env _ c _, (λ c. clamp_given-Adds ps env _ c _, tt)),
        ),
      ),
    ),
  )

  abbrev types_of : LambdaExtensionConfig → List Text
  types_of cfg = cfg.log_types

  types-before_types : types_of (before_types ps env).config ≡ given_types ps env
  unfolding run_steps set_defaults
  types-before_types =
      run_steps-Keeps types_of (telemetry_steps env)
        (telemetry_steps-Keeps types_of env (λ v cfg. refl) (λ v cfg. refl) (λ v cfg. refl))
        (run_steps (later_steps ps env) (with_buckets ps env))
      ∙ ap (λ (k : Kept). k.types) (settings-Keeps ps env (start ps env))

  types-Adds :
      Adds
        (type_problems ps env (given_types ps env))
        (before_types ps env)
        (check_types (before_types ps env).config.log_types (before_types ps env))
  types-Adds =
      subst
        (λ ts.
          Adds (type_problems ps env ts) (before_types ps env)
            (check_types (before_types ps env).config.log_types (before_types ps env)))
        types-before_types
        (check_types-Adds ps env (before_types ps env).config.log_types (before_types ps env))

  before_types-Adds :
      Adds
        ((flatten (first_problems ps env) ++ flatten (later_problems ps env))
          ++ flatten (telemetry_problems ps env))
        (start ps env)
        (before_types ps env)
  before_types-Adds =
      Adds-trans
        (Adds-trans first-Adds (
          run_steps-Adds (later_steps ps env) (later_problems ps env) later_steps-AllAdds
            (with_buckets ps env)))
        (run_steps-Adds (telemetry_steps env) (telemetry_problems ps env) telemetry_steps-AllAdds
          (run_steps (later_steps ps env) (with_buckets ps env)))

  problems-Adds :
      Adds
        (problems ps env)
        (start ps env)
        (check_all ps env (set_defaults env (initial_config env)))
  unfolding problems
  problems-Adds =
      subst (Adds (problems ps env) (start ps env)) (sym (check_all-types ps env))
        (Adds-trans before_types-Adds types-Adds)

  outcome-failure_of :
      (es : List ConfigError) (c : Checked)
      → c.all_errors ≡ es
      → (c.all_errors ≡ [] → c.failure ≡ none)
      → outcome c ≡ failure_of es
  unfolding outcome
  outcome-failure_of [] c h n = rw (h, outcome) (n h)
  outcome-failure_of (e ∷ es) c h n = rw (h, outcome) (ap (λ l. some (joined l)) h)

  -- For every environment, the error of `GetConfig` is nil exactly if none of its variables gives a
  -- message, and is otherwise all the messages joined, in the order of the code: a missing endpoint, or
  -- one that is no URI with no key; integers, Booleans and a log level that do not parse; with the
  -- failover enabled, a missing bucket or region; and log types that are not supported.
  pub get_config-problems : (get_config ps env).1 ≡ failure_of (problems ps env)
  unfolding get_config validate_config
  get_config-problems =
      outcome-failure_of (problems ps env)
        (check_all ps env (set_defaults env (initial_config env))) problems-Adds.all
        (problems-Adds.sound (λ h. refl))
