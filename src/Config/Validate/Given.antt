-- ===== src/Config/Validate/Given.antt =====
-- The integer settings, from the environment.
pub mod Stored
use sumologic_lambda_extensi.Base.{
  ◌*◌, ◌≡◌, refl, ◌∙◌, ap, none, some, List, [], ◌∷◌, String, if◌then◌else◌, ℤ, pos, All,
  Option-cases, Bool-cases, inl, inr, arith,
}
use sumologic_lambda_extensi.Base.Text.{Text, is_empty}
use sumologic_lambda_extensi.Config.Numbers.{parse_int}
use sumologic_lambda_extensi.Config.Defs.{
  LambdaExtensionConfig, Env, Parsers, Checked, times_ms, millisecond, initial_config, set_defaults,
}
use sumologic_lambda_extensi.Config.Validate.{
  check_endpoint, bool_field, int_field, check_buckets, check_types, run_steps, setting_steps,
  telemetry_steps, check_all, validate_config, get_config,
}
use sumologic_lambda_extensi.Config.Validate.Keeps.{
  Keeps, bool_field-Keeps, check_buckets-Keeps, check_endpoint-Keeps, int_field-Keeps,
  int_field_outer-Keeps, clamp_given-Keeps, check_log_level-Keeps, check_types-Keeps,
  run_steps-Keeps, telemetry_steps-Keeps,
}
use sumologic_lambda_extensi.Config.Validate.Given.Stored.{
  given, stored, stored-given, int_field-stored,
}

-- The settings that four steps in the middle of `validateConfig` read, and one that no step writes.
abbrev Own : Type 0
Own = record { retries : ℤ; sleep : ℤ; queue : ℤ; requests : ℤ; region : Text }

abbrev own : LambdaExtensionConfig → Own
own cfg = record {
  retries = cfg.num_retry;
  sleep = cfg.retry_sleep_time;
  queue = cfg.max_data_queue_length;
  requests = cfg.max_concurrent_requests;
  region = cfg.s3_bucket_region;
}

abbrev convert_none : ℤ → ℤ
convert_none x = x

module _ (ps : Parsers) (env : Env) where
  abbrev defaults : LambdaExtensionConfig
  defaults = set_defaults env (initial_config env)

  abbrev begun : Checked
  begun =
      run_steps
        (check_endpoint ps
          ∷ bool_field env "SUMO_ENABLE_FAILOVER" (λ v cfg. record cfg { enable_failover = v })
          ∷ check_buckets
          ∷ [])
        (record { config = defaults; all_errors = []; failure = none })

  own-begun : own begun.config ≡ own defaults
  own-begun =
      run_steps-Keeps own _
        (
          check_endpoint-Keeps own ps,
          (bool_field-Keeps own env _ _ (λ v cfg. refl), (check_buckets-Keeps own, tt)),
        )
        (record { config = defaults; all_errors = []; failure = none })

  abbrev with_retries : Checked
  with_retries = int_field env "SUMO_NUM_RETRIES" (λ v cfg. record cfg { num_retry = v }) begun

  abbrev with_sleep : Checked
  with_sleep =
      int_field env "SUMO_RETRY_SLEEP_TIME_MS"
        (λ v cfg. record cfg { retry_sleep_time = times_ms v }) with_retries

  abbrev with_queue : Checked
  with_queue =
      int_field env "SUMO_MAX_DATAQUEUE_LENGTH" (λ v cfg. record cfg { max_data_queue_length = v })
        with_sleep

  abbrev with_requests : Checked
  with_requests =
      int_field env "SUMO_MAX_CONCURRENT_REQUESTS"
        (λ v cfg. record cfg { max_concurrent_requests = v }) with_queue

  abbrev drop_7 {ℓ} : {A : Type ℓ} → List A → List A
  drop_7 (a ∷ b ∷ c ∷ d ∷ e ∷ f ∷ g ∷ rest) = rest
  drop_7 _ = []

  abbrev last_steps : List (Checked → Checked)
  last_steps = drop_7 (setting_steps ps env)

  last_steps-Keeps : All (Keeps own) last_steps
  last_steps-Keeps = (
    check_log_level-Keeps own ps env (λ v cfg. refl),
    (
      bool_field-Keeps own env _ _ (λ v cfg. refl),
      (
        bool_field-Keeps own env _ _ (λ v cfg. refl),
        (int_field_outer-Keeps own env _ 32 _ (λ v cfg. refl), tt),
      ),
    ),
  )

  abbrev ended : Checked
  ended = run_steps (telemetry_steps env) (run_steps last_steps with_requests)

  check_all-ended : check_all ps env defaults ≡ check_types ended.config.log_types ended
  unfolding check_all run_steps
  check_all-ended = refl

  own-get_config : own (get_config ps env).0 ≡ own with_requests.config
  unfolding get_config validate_config
  own-get_config =
      ap (λ (c : Checked). own c.config) check_all-ended
      ∙ check_types-Keeps own ended.config.log_types ended
      ∙ run_steps-Keeps own (telemetry_steps env)
          (telemetry_steps-Keeps own env (λ v cfg. refl) (λ v cfg. refl) (λ v cfg. refl))
          (run_steps last_steps with_requests)
      ∙ run_steps-Keeps own last_steps last_steps-Keeps with_requests

  retries_lem :
      with_requests.config.num_retry
      ≡ stored convert_none (env "SUMO_NUM_RETRIES") begun.config.num_retry
  retries_lem =
      int_field-Keeps (λ cfg. cfg.num_retry) env _ _ (λ v cfg. refl) with_queue
      ∙ int_field-Keeps (λ cfg. cfg.num_retry) env _ _ (λ v cfg. refl) with_sleep
      ∙ int_field-Keeps (λ cfg. cfg.num_retry) env _ _ (λ v cfg. refl) with_retries
      ∙ int_field-stored (λ cfg. cfg.num_retry) convert_none env _ _ begun (λ v cfg. refl)

  sleep_lem :
      with_requests.config.retry_sleep_time
      ≡ stored times_ms (env "SUMO_RETRY_SLEEP_TIME_MS") begun.config.retry_sleep_time
  sleep_lem =
      int_field-Keeps (λ cfg. cfg.retry_sleep_time) env _ _ (λ v cfg. refl) with_queue
      ∙ int_field-Keeps (λ cfg. cfg.retry_sleep_time) env _ _ (λ v cfg. refl) with_sleep
      ∙ int_field-stored (λ cfg. cfg.retry_sleep_time) times_ms env _ _ with_retries (λ v cfg. refl)
      ∙ ap (stored times_ms (env "SUMO_RETRY_SLEEP_TIME_MS"))
          (int_field-Keeps (λ cfg. cfg.retry_sleep_time) env _ _ (λ v cfg. refl) begun)

  queue_lem :
      with_requests.config.max_data_queue_length
      ≡ stored convert_none (env "SUMO_MAX_DATAQUEUE_LENGTH") begun.config.max_data_queue_length
  queue_lem =
      int_field-Keeps (λ cfg. cfg.max_data_queue_length) env _ _ (λ v cfg. refl) with_queue
      ∙ int_field-stored (λ cfg. cfg.max_data_queue_length) convert_none env _ _ with_sleep
          (λ v cfg. refl)
      ∙ ap (stored convert_none (env "SUMO_MAX_DATAQUEUE_LENGTH")) (
          int_field-Keeps (λ cfg. cfg.max_data_queue_length) env _ _ (λ v cfg. refl) with_retries
          ∙ int_field-Keeps (λ cfg. cfg.max_data_queue_length) env _ _ (λ v cfg. refl) begun)

  requests_lem :
      with_requests.config.max_concurrent_requests
      ≡ stored convert_none
          (env "SUMO_MAX_CONCURRENT_REQUESTS")
          begun.config.max_concurrent_requests
  requests_lem =
      int_field-stored (λ cfg. cfg.max_concurrent_requests) convert_none env _ _ with_queue
        (λ v cfg. refl)
      ∙ ap (stored convert_none (env "SUMO_MAX_CONCURRENT_REQUESTS")) (
          int_field-Keeps (λ cfg. cfg.max_concurrent_requests) env _ _ (λ v cfg. refl) with_sleep
          ∙ int_field-Keeps (λ cfg. cfg.max_concurrent_requests) env _ _ (λ v cfg. refl)
              with_retries
          ∙ int_field-Keeps (λ cfg. cfg.max_concurrent_requests) env _ _ (λ v cfg. refl) begun)

  region_lem : with_requests.config.s3_bucket_region ≡ begun.config.s3_bucket_region
  region_lem =
      int_field-Keeps (λ cfg. cfg.s3_bucket_region) env _ _ (λ v cfg. refl) with_queue
      ∙ int_field-Keeps (λ cfg. cfg.s3_bucket_region) env _ _ (λ v cfg. refl) with_sleep
      ∙ int_field-Keeps (λ cfg. cfg.s3_bucket_region) env _ _ (λ v cfg. refl) with_retries
      ∙ int_field-Keeps (λ cfg. cfg.s3_bucket_region) env _ _ (λ v cfg. refl) begun

  -- Four settings of integers as the environment gives them, and the region of the bucket.
  pub record IsGiven (cfg : LambdaExtensionConfig) : Type 0 where
    pub retries : cfg.num_retry ≡ given convert_none (pos 3) (env "SUMO_NUM_RETRIES")
    pub sleep :
        cfg.retry_sleep_time
        ≡ given times_ms (pos (300 * millisecond)) (env "SUMO_RETRY_SLEEP_TIME_MS")
    pub queue :
        cfg.max_data_queue_length ≡ given convert_none (pos 20) (env "SUMO_MAX_DATAQUEUE_LENGTH")
    pub requests :
        cfg.max_concurrent_requests
        ≡ given convert_none (pos 3) (env "SUMO_MAX_CONCURRENT_REQUESTS")
    pub region : cfg.s3_bucket_region ≡ env "SUMO_S3_BUCKET_REGION"

  -- For every environment, also one that is refused: the retries, the pause before a retry, the length
  -- of the queue and the requests at a time are 3, 300 ms, 20 and 3 if their variables are not set, the
  -- integers (of milliseconds) that these hold, or 0 if they hold no 32-bit integer; and the bucket's
  -- region is its variable.
  pub get_config-IsGiven : IsGiven (get_config ps env).0
  unfolding set_defaults initial_config
  get_config-IsGiven = record {
    retries =
        ap (λ (o : Own). o.retries) own-get_config
        ∙ retries_lem
        ∙ ap (λ (o : Own). stored convert_none (env "SUMO_NUM_RETRIES") o.retries) own-begun
        ∙ stored-given convert_none (pos 3) (env "SUMO_NUM_RETRIES");
    sleep =
        ap (λ (o : Own). o.sleep) own-get_config
        ∙ sleep_lem
        ∙ ap (λ (o : Own). stored times_ms (env "SUMO_RETRY_SLEEP_TIME_MS") o.sleep) own-begun
        ∙ stored-given times_ms (pos (300 * millisecond)) (env "SUMO_RETRY_SLEEP_TIME_MS");
    queue =
        ap (λ (o : Own). o.queue) own-get_config
        ∙ queue_lem
        ∙ ap (λ (o : Own). stored convert_none (env "SUMO_MAX_DATAQUEUE_LENGTH") o.queue) own-begun
        ∙ stored-given convert_none (pos 20) (env "SUMO_MAX_DATAQUEUE_LENGTH");
    requests =
        ap (λ (o : Own). o.requests) own-get_config
        ∙ requests_lem
        ∙ ap (λ (o : Own). stored convert_none (env "SUMO_MAX_CONCURRENT_REQUESTS") o.requests)
            own-begun
        ∙ stored-given convert_none (pos 3) (env "SUMO_MAX_CONCURRENT_REQUESTS");
    region =
        ap (λ (o : Own). o.region) own-get_config
        ∙ region_lem
        ∙ ap (λ (o : Own). o.region) own-begun;
  }
