-- ===== src/Config/Validate/Accepts.antt =====
-- What it means that `GetConfig` returns no error.
use sumologic_lambda_extensi.Base.{
  ◌≡◌, refl, ◌∙◌, sym, subst, Bool, true, false, none, List, [], ◌∷◌, All,
}
use sumologic_lambda_extensi.Base.Text.{Text, is_empty}
use sumologic_lambda_extensi.Config.Defs.{
  LambdaExtensionConfig, Env, Parsers, ConfigError, Checked, initial_config, set_defaults,
}
use sumologic_lambda_extensi.Config.Validate.{
  check_endpoint, bool_field, check_buckets, check_types, run_steps, setting_steps, telemetry_steps,
  outcome, check_all, validate_config, get_config,
}
use sumologic_lambda_extensi.Config.Validate.Keeps.{
  Keeps, bool_field-Keeps, check_buckets-Keeps, check_endpoint-Keeps, int_field-Keeps,
  int_field_outer-Keeps, check_log_level-Keeps, check_types-Keeps, run_steps-Keeps,
  telemetry_steps-Keeps,
}
use sumologic_lambda_extensi.Config.Validate.Messages.{
  Clears, check_log_level-Clears, bool_field-Clears, int_field_outer-Clears, int_field-Clears,
  clamp_given-Clears, run_steps-Clears, IsKnown, check_types-IsKnown, IsEndpoint,
  check_endpoint-IsEndpoint, HasBucket, check_buckets-HasBucket,
}

-- The settings that the checks above are about.
abbrev Core : Type 0
Core = record { endpoint : Text; key : Text; failover : Bool; bucket : Text; region : Text }

abbrev core : LambdaExtensionConfig → Core
core cfg = record {
  endpoint = cfg.sumo_http_endpoint;
  key = cfg.kms_key_id;
  failover = cfg.enable_failover;
  bucket = cfg.s3_bucket_name;
  region = cfg.s3_bucket_region;
}

-- A list behind its first three elements.
abbrev pub drop_3 {ℓ} : {A : Type ℓ} → List A → List A
drop_3 (a ∷ b ∷ c ∷ rest) = rest
drop_3 _ = []

module _ (ps : Parsers) (env : Env) where
  abbrev pub start : Checked
  start = record { config = set_defaults env (initial_config env); all_errors = []; failure = none }

  -- The variables behind the check of the buckets, and behind all the steps that follow it.
  abbrev pub with_buckets : Checked
  with_buckets = check_buckets (
      bool_field env "SUMO_ENABLE_FAILOVER" (λ v cfg. record cfg { enable_failover = v })
        (check_endpoint ps start))

  abbrev pub later_steps : List (Checked → Checked)
  later_steps = drop_3 (setting_steps ps env)

  abbrev pub before_types : Checked
  before_types = run_steps (telemetry_steps env) (run_steps later_steps with_buckets)

  pub check_all-types :
      check_all ps env (set_defaults env (initial_config env))
      ≡ check_types before_types.config.log_types before_types
  unfolding check_all run_steps
  check_all-types = refl

  later_steps-Clears : All Clears later_steps
  later_steps-Clears = (
    int_field-Clears env _ _,
    (
      int_field-Clears env _ _,
      (
        int_field-Clears env _ _,
        (
          int_field-Clears env _ _,
          (
            check_log_level-Clears ps env,
            (
              bool_field-Clears env _ _,
              (bool_field-Clears env _ _, (int_field_outer-Clears env _ 32 _, tt)),
            ),
          ),
        ),
      ),
    ),
  )

  telemetry_steps-Clears : All Clears (telemetry_steps env)
  telemetry_steps-Clears = (
    int_field-Clears env _ _,
    (
      clamp_given-Clears env _ _,
      (
        int_field_outer-Clears env _ 64 _,
        (clamp_given-Clears env _ _, (int_field-Clears env _ _, (clamp_given-Clears env _ _, tt))),
      ),
    ),
  )

  later_steps-Keeps : All (Keeps core) later_steps
  later_steps-Keeps = (
    int_field-Keeps core env _ _ (λ v cfg. refl),
    (
      int_field-Keeps core env _ _ (λ v cfg. refl),
      (
        int_field-Keeps core env _ _ (λ v cfg. refl),
        (
          int_field-Keeps core env _ _ (λ v cfg. refl),
          (
            check_log_level-Keeps core ps env (λ v cfg. refl),
            (
              bool_field-Keeps core env _ _ (λ v cfg. refl),
              (
                bool_field-Keeps core env _ _ (λ v cfg. refl),
                (int_field_outer-Keeps core env _ 32 _ (λ v cfg. refl), tt),
              ),
            ),
          ),
        ),
      ),
    ),
  )

  core-before_types : core before_types.config ≡ core with_buckets.config
  core-before_types =
      run_steps-Keeps core (telemetry_steps env)
        (telemetry_steps-Keeps core env (λ v cfg. refl) (λ v cfg. refl) (λ v cfg. refl))
        (run_steps later_steps with_buckets)
      ∙ run_steps-Keeps core later_steps later_steps-Keeps with_buckets

  abbrev named : LambdaExtensionConfig → Text × Text
  named cfg = (cfg.sumo_http_endpoint, cfg.kms_key_id)

  named-with_buckets : named with_buckets.config ≡ named start.config
  named-with_buckets =
      let enabled =
        bool_field env "SUMO_ENABLE_FAILOVER" (λ v cfg. record cfg { enable_failover = v })
          (check_endpoint ps start) in
      check_buckets-Keeps named enabled
      ∙ bool_field-Keeps named env "SUMO_ENABLE_FAILOVER"
          (λ v cfg. record cfg { enable_failover = v }) (λ v cfg. refl) (check_endpoint ps start)
      ∙ check_endpoint-Keeps named ps start

  with_buckets-valid :
      with_buckets.all_errors ≡ []
      → IsEndpoint ps with_buckets.config × HasBucket with_buckets.config
  with_buckets-valid h =
      let enabled =
        bool_field env "SUMO_ENABLE_FAILOVER" (λ v cfg. record cfg { enable_failover = v })
          (check_endpoint ps start) in
      let b = check_buckets-HasBucket enabled h in
      let e = check_endpoint-IsEndpoint ps start (
        bool_field-Clears env "SUMO_ENABLE_FAILOVER" (λ v cfg. record cfg { enable_failover = v })
          (check_endpoint ps start) b.1) in
      let k = check_buckets-Keeps core enabled in
      (
        subst
            (λ (r : Text × Text).
              (is_empty r.0 ≡ false) × (is_empty r.1 ≡ true → ps.is_request_uri r.0 ≡ true))
            (sym named-with_buckets) e,
        subst
            (λ (r : Core).
              r.failover ≡ true → (is_empty r.bucket ≡ false) × (is_empty r.region ≡ false))
            (sym k) b.0,
      )

  before_types-valid :
      before_types.all_errors ≡ []
      → IsEndpoint ps before_types.config × HasBucket before_types.config
  before_types-valid h =
      let v = with_buckets-valid (
        run_steps-Clears later_steps later_steps-Clears with_buckets (
          run_steps-Clears (telemetry_steps env) telemetry_steps-Clears
            (run_steps later_steps with_buckets) h)) in
      subst
        (λ (r : Core).
          ((is_empty r.endpoint ≡ false)
            × (is_empty r.key ≡ true → ps.is_request_uri r.endpoint ≡ true))
          × (r.failover ≡ true → (is_empty r.bucket ≡ false) × (is_empty r.region ≡ false)))
        (sym core-before_types) v

  -- What holds of settings that `GetConfig` returns without an error.
  pub record IsAccepted (cfg : LambdaExtensionConfig) : Type 0 where
    pub endpoint : IsEndpoint ps cfg
    pub bucket : HasBucket cfg
    pub types : All IsKnown cfg.log_types

  outcome-none : (c : Checked) → outcome c ≡ none → c.all_errors ≡ []
  unfolding outcome
  outcome-none c h = no_errors c.all_errors h
    where
      no_errors : (es : List ConfigError) → outcome (record c { all_errors = es }) ≡ none → es ≡ []
      no_errors [] q = refl
      no_errors (e ∷ es) q = cc

  -- If `GetConfig` returns no error, the endpoint is set, and is a URI unless there is a key to decrypt
  -- it; with the failover enabled, the bucket and its region are set; and every log type is, trimmed, a
  -- supported one.
  pub get_config-IsAccepted : (get_config ps env).1 ≡ none → IsAccepted (get_config ps env).0
  unfolding get_config validate_config
  get_config-IsAccepted h =
      let d = check_types before_types.config.log_types before_types in
      let t =
        check_types-IsKnown before_types.config.log_types before_types
          (outcome-none d (rw check_all-types at h)) in
      let v = before_types-valid t.1 in
      rw
        (check_all-types, check_types-Keeps (λ cfg. cfg) before_types.config.log_types before_types)
        (record { endpoint = v.0; bucket = v.1; types = t.0 })
