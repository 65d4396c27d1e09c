-- ===== src/Config/Validate/Bounds.antt =====
-- The settings of the Telemetry API stay within its limits, whatever the environment says.
use sumologic_lambda_extensi.Base.{
  ℕ, ◌≡◌, refl, ◌∙◌, ap, ◌≤◌, true, none, [], String, ℤ, pos, ◌≤ℤ◌, arith, Bool-cases, inl, inr,
  clamp_bounds,
}
use sumologic_lambda_extensi.Base.Text.{is_empty}
use sumologic_lambda_extensi.Config.Defs.{
  LambdaExtensionConfig, Env, Parsers, Checked, set_defaults, initial_config,
}
use sumologic_lambda_extensi.Config.Validate.{
  int_field, int_field_outer, clamp_given, clamp, run_steps, setting_steps, telemetry_steps,
  check_all, validate_config, get_config,
}
use sumologic_lambda_extensi.Config.Validate.Keeps.{
  settings-Keeps, int_field-Keeps, int_field_outer-Keeps, clamp_given-Keeps, check_types-Keeps,
}

abbrev pub Within : ℤ → ℕ → ℕ → Type 0
Within x lo hi = (pos lo ≤ℤ x) × (x ≤ℤ pos hi)

pub record IsTelemetryOk (cfg : LambdaExtensionConfig) : Type 0 where
  pub timeout_ms : Within cfg.telemetry_timeout_ms 25 30000
  pub max_bytes : Within cfg.telemetry_max_bytes 262144 1048576
  pub max_items : Within cfg.telemetry_max_items 1000 10000

-- A value that is within the bounds, or that is given and clamped, is within them afterwards.
module _ (env : Env) (name : String) (f : LambdaExtensionConfig → ℤ) (lo hi : ℕ) where
  clamp_given-Within :
      (set : LambdaExtensionConfig → LambdaExtensionConfig) (c : Checked)
      → lo ≤ hi
      → ((cfg : LambdaExtensionConfig) → f (set cfg) ≡ clamp (f cfg) lo hi)
      → (is_empty (env name) ≡ true → Within (f c.config) lo hi)
      → Within (f (clamp_given env name set c).config) lo hi
  unfolding clamp_given
  clamp_given-Within set c h e unset = elim (Bool-cases (is_empty (env name))) [
    | inl empty ↦ rw empty (unset empty)
    | inr given ↦ rw (given, e c.config) (clamp_bounds (pos lo) (pos hi) (f c.config) (omega arith))
  ]

-- A setting that is not given is not touched.
unset_int_field :
    (env : Env) (name : String) (set : ℤ → LambdaExtensionConfig → LambdaExtensionConfig)
    (c : Checked)
    → is_empty (env name) ≡ true
    → int_field env name set c ≡ c
unfolding int_field
unset_int_field env name set c h = rw h

unset_int_field_outer :
    (env : Env) (bits : ℕ) (name : String) (set : ℤ → LambdaExtensionConfig → LambdaExtensionConfig)
    (c : Checked)
    → is_empty (env name) ≡ true
    → int_field_outer env bits name set c ≡ c
unfolding int_field_outer
unset_int_field_outer env bits name set c h = rw h

-- What `setDefaults` gives to the settings that are not given.
abbrev Defaulted : Env → LambdaExtensionConfig → Type 0
Defaulted env cfg =
    (is_empty (env "TELEMETRY_TIMEOUT_MS") ≡ true → cfg.telemetry_timeout_ms ≡ pos 1000)
    × (is_empty (env "TELEMETRY_MAX_BYTES") ≡ true → cfg.telemetry_max_bytes ≡ pos 262144)
    × (is_empty (env "TELEMETRY_MAX_ITEMS") ≡ true → cfg.telemetry_max_items ≡ pos 10000)

set_defaults-Defaulted :
    (env : Env) (cfg : LambdaExtensionConfig) → Defaulted env (set_defaults env cfg)
unfolding set_defaults
set_defaults-Defaulted env cfg = (λ h. rw h, λ h. rw h, λ h. rw h)

abbrev timeout_of : LambdaExtensionConfig → ℤ
timeout_of cfg = cfg.telemetry_timeout_ms

abbrev bytes_of : LambdaExtensionConfig → ℤ
bytes_of cfg = cfg.telemetry_max_bytes

abbrev items_of : LambdaExtensionConfig → ℤ
items_of cfg = cfg.telemetry_max_items

module _ (env : Env) (c : Checked) (d : Defaulted env c.config) where
  abbrev after_timeout : Checked
  after_timeout =
      clamp_given env "TELEMETRY_TIMEOUT_MS"
        (λ cfg. record cfg { telemetry_timeout_ms = clamp cfg.telemetry_timeout_ms 25 30000 })
        (int_field env "TELEMETRY_TIMEOUT_MS" (λ v cfg. record cfg { telemetry_timeout_ms = v }) c)

  abbrev after_bytes : Checked
  after_bytes =
      clamp_given env "TELEMETRY_MAX_BYTES"
        (λ cfg. record cfg { telemetry_max_bytes = clamp cfg.telemetry_max_bytes 262144 1048576 })
        (int_field_outer env 64 "TELEMETRY_MAX_BYTES"
          (λ v cfg. record cfg { telemetry_max_bytes = v }) after_timeout)

  abbrev after_items : Checked
  after_items =
      clamp_given env "TELEMETRY_MAX_ITEMS"
        (λ cfg. record cfg { telemetry_max_items = clamp cfg.telemetry_max_items 1000 10000 })
        (int_field env "TELEMETRY_MAX_ITEMS" (λ v cfg. record cfg { telemetry_max_items = v })
          after_bytes)

  timeout-after_bytes :
      (f : LambdaExtensionConfig → ℤ)
      → ((v : ℤ) (cfg : LambdaExtensionConfig) → f (record cfg { telemetry_max_bytes = v }) ≡ f cfg)
      → f after_bytes.config ≡ f after_timeout.config
  timeout-after_bytes f h =
      clamp_given-Keeps f env _ _ (λ cfg. h _ cfg) _ ∙ int_field_outer-Keeps f env _ 64 _ h _

  items-after_timeout :
      (f : LambdaExtensionConfig → ℤ)
      → ((v : ℤ) (cfg : LambdaExtensionConfig)
          → f (record cfg { telemetry_timeout_ms = v }) ≡ f cfg)
      → f after_timeout.config ≡ f c.config
  items-after_timeout f h =
      clamp_given-Keeps f env _ _ (λ cfg. h _ cfg) _ ∙ int_field-Keeps f env _ _ h _

  bytes-after_items :
      (f : LambdaExtensionConfig → ℤ)
      → ((v : ℤ) (cfg : LambdaExtensionConfig) → f (record cfg { telemetry_max_items = v }) ≡ f cfg)
      → f after_items.config ≡ f after_bytes.config
  bytes-after_items f h =
      clamp_given-Keeps f env _ _ (λ cfg. h _ cfg) _ ∙ int_field-Keeps f env _ _ h _

  after_timeout-Within : Within (timeout_of after_timeout.config) 25 30000
  after_timeout-Within =
      clamp_given-Within env _ timeout_of 25 30000 _ _ (omega arith) (λ cfg. refl)
        (λ e. rw (unset_int_field env _ _ c e, d.0 e) (omega arith))

  after_bytes-Within : Within (bytes_of after_bytes.config) 262144 1048576
  after_bytes-Within =
      clamp_given-Within env _ bytes_of 262144 1048576 _ _ (omega arith) (λ cfg. refl)
        (λ e.
          rw
            (
              unset_int_field_outer env 64 _ _ after_timeout e,
              items-after_timeout bytes_of (λ v cfg. refl),
              d.1 e,
            )
            (omega arith))

  after_items-Within : Within (items_of after_items.config) 1000 10000
  after_items-Within =
      clamp_given-Within env _ items_of 1000 10000 _ _ (omega arith) (λ cfg. refl)
        (λ e.
          rw
            (
              unset_int_field env _ _ after_bytes e,
              timeout-after_bytes items_of (λ v cfg. refl),
              items-after_timeout items_of (λ v cfg. refl),
              d.2 e,
            )
            (omega arith))

  after_items-IsTelemetryOk : IsTelemetryOk after_items.config
  after_items-IsTelemetryOk = record {
    timeout_ms =
        rw
          (
            bytes-after_items timeout_of (λ v cfg. refl),
            timeout-after_bytes timeout_of (λ v cfg. refl),
          )
          after_timeout-Within;
    max_bytes = rw (bytes-after_items bytes_of (λ v cfg. refl)) after_bytes-Within;
    max_items = after_items-Within;
  }

telemetry-IsTelemetryOk :
    (env : Env) (c : Checked)
    → Defaulted env c.config
    → IsTelemetryOk (run_steps (telemetry_steps env) c).config
unfolding run_steps
telemetry-IsTelemetryOk env c d = after_items-IsTelemetryOk env c d

module _ (ps : Parsers) (env : Env) where
  abbrev settled : Checked
  settled =
      run_steps (setting_steps ps env)
        (record { config = set_defaults env (initial_config env); all_errors = []; failure = none })

  settled-Defaulted : Defaulted env settled.config
  settled-Defaulted =
      let k = settings-Keeps ps env (record {
        config = set_defaults env (initial_config env);
        all_errors = [];
        failure = none;
      }) in
      let d = set_defaults-Defaulted env (initial_config env) in
      (
        λ e. ap (λ r. r.timeout_ms) k ∙ d.0 e,
        λ e. ap (λ r. r.max_bytes) k ∙ d.1 e,
        λ e. ap (λ r. r.max_items) k ∙ d.2 e,
      )

  -- For every environment, also one that is refused, the timeout, the bytes and the items that the
  -- Telemetry API is asked for are within 25 to 30000, 262144 to 1048576 and 1000 to 10000.
  pub get_config-IsTelemetryOk : IsTelemetryOk (get_config ps env).0
  unfolding get_config validate_config check_all
  get_config-IsTelemetryOk =
      rw (check_types-Keeps (λ cfg. cfg) _ _)
        (telemetry-IsTelemetryOk env settled settled-Defaulted)
