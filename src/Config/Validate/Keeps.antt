-- ===== src/Config/Validate/Keeps.antt =====
-- Each step of `validateConfig` leaves the settings alone that it is not about.
use sumologic_lambda_extensi.Base.{
  ℕ, ◌≡◌, refl, ◌∙◌, Bool, Option, none, some, List, [], ◌∷◌, String, ℤ, All, arith,
}
use sumologic_lambda_extensi.Base.Text.{Text}
use sumologic_lambda_extensi.Config.Numbers.{NumError, parse_int, parse_bool}
use sumologic_lambda_extensi.Config.Defs.{
  LambdaExtensionConfig, Env, Parsers, Checked, assign_error,
}
use sumologic_lambda_extensi.Config.Validate.{
  check_endpoint, bool_field, int_field, int_field_outer, check_buckets, check_log_level,
  clamp_given, check_types, run_steps, setting_steps, telemetry_steps,
}

module _ {X : Type 0} (f : LambdaExtensionConfig → X) where
  abbrev pub Keeps : (Checked → Checked) → Type 0
  Keeps step = (c : Checked) → f (step c).config ≡ f c.config

  assign_error-Keeps : (name : String) (e : Option NumError) → Keeps (assign_error name e)
  assign_error-Keeps name none c = refl
  assign_error-Keeps name (some e) c = refl

  pub check_endpoint-Keeps : (ps : Parsers) → Keeps (check_endpoint ps)
  unfolding check_endpoint
  check_endpoint-Keeps ps c = ground arith

  pub check_buckets-Keeps : Keeps check_buckets
  unfolding check_buckets
  check_buckets-Keeps c = ground arith

  pub check_types-Keeps : (ts : List Text) → Keeps (check_types ts)
  unfolding check_types
  check_types-Keeps [] c = refl
  check_types-Keeps (t ∷ ts) c = check_types-Keeps ts _ ∙ ground arith

  pub check_log_level-Keeps :
      (ps : Parsers) (env : Env)
      → ((v : ℕ) (cfg : LambdaExtensionConfig) → f (record cfg { log_level = v }) ≡ f cfg)
      → Keeps (check_log_level ps env)
  unfolding check_log_level
  check_log_level-Keeps ps env h c = grind arith

  module _ (env : Env) (name : String) where
    pub bool_field-Keeps :
        (set : Bool → LambdaExtensionConfig → LambdaExtensionConfig)
        → ((v : Bool) (cfg : LambdaExtensionConfig) → f (set v cfg) ≡ f cfg)
        → Keeps (bool_field env name set)
    unfolding bool_field
    bool_field-Keeps set h c = ground (arith, h (parse_bool (env name)).value c.config)

    pub int_field-Keeps :
        (set : ℤ → LambdaExtensionConfig → LambdaExtensionConfig)
        → ((v : ℤ) (cfg : LambdaExtensionConfig) → f (set v cfg) ≡ f cfg)
        → Keeps (int_field env name set)
    unfolding int_field
    int_field-Keeps set h c = ground (arith, h (parse_int 32 (env name)).value c.config)

    pub int_field_outer-Keeps :
        (bits : ℕ) (set : ℤ → LambdaExtensionConfig → LambdaExtensionConfig)
        → ((v : ℤ) (cfg : LambdaExtensionConfig) → f (set v cfg) ≡ f cfg)
        → Keeps (int_field_outer env bits name set)
    unfolding int_field_outer
    int_field_outer-Keeps bits set h c =
        ground (arith, h (parse_int bits (env name)).value c.config)

    pub clamp_given-Keeps :
        (set : LambdaExtensionConfig → LambdaExtensionConfig)
        → ((cfg : LambdaExtensionConfig) → f (set cfg) ≡ f cfg)
        → Keeps (clamp_given env name set)
    unfolding clamp_given
    clamp_given-Keeps set h c = ground (arith, h c.config)

  pub run_steps-Keeps :
      (steps : List (Checked → Checked)) → All Keeps steps → Keeps (run_steps steps)
  unfolding run_steps
  run_steps-Keeps [] h c = refl
  run_steps-Keeps (step ∷ steps) h c = run_steps-Keeps steps h.1 (step c) ∙ h.0 c

  -- A setting that none of the telemetry's three is.
  pub telemetry_steps-Keeps :
      (env : Env)
      → ((v : ℤ) (cfg : LambdaExtensionConfig)
          → f (record cfg { telemetry_timeout_ms = v }) ≡ f cfg)
      → ((v : ℤ) (cfg : LambdaExtensionConfig) → f (record cfg { telemetry_max_bytes = v }) ≡ f cfg)
      → ((v : ℤ) (cfg : LambdaExtensionConfig) → f (record cfg { telemetry_max_items = v }) ≡ f cfg)
      → All Keeps (telemetry_steps env)
  telemetry_steps-Keeps env a b c = (
    int_field-Keeps env _ _ a,
    (
      clamp_given-Keeps env _ _ (λ cfg. a _ cfg),
      (
        int_field_outer-Keeps env _ 64 _ b,
        (
          clamp_given-Keeps env _ _ (λ cfg. b _ cfg),
          (int_field-Keeps env _ _ c, (clamp_given-Keeps env _ _ (λ cfg. c _ cfg), tt)),
        ),
      ),
    ),
  )

-- What the steps before the telemetry settings leave alone.
abbrev pub Kept : Type 0
Kept = record { timeout_ms : ℤ; max_bytes : ℤ; max_items : ℤ; types : List Text }

abbrev pub kept : LambdaExtensionConfig → Kept
kept cfg = record {
  timeout_ms = cfg.telemetry_timeout_ms;
  max_bytes = cfg.telemetry_max_bytes;
  max_items = cfg.telemetry_max_items;
  types = cfg.log_types;
}

pub settings-Keeps : (ps : Parsers) (env : Env) → Keeps kept (run_steps (setting_steps ps env))
settings-Keeps ps env = run_steps-Keeps kept (setting_steps ps env) (
  check_endpoint-Keeps kept ps,
  (
    bool_field-Keeps kept env _ _ (λ v cfg. refl),
    (
      check_buckets-Keeps kept,
      (
        int_field-Keeps kept env _ _ (λ v cfg. refl),
        (
          int_field-Keeps kept env _ _ (λ v cfg. refl),
          (
            int_field-Keeps kept env _ _ (λ v cfg. refl),
            (
              int_field-Keeps kept env _ _ (λ v cfg. refl),
              (
                check_log_level-Keeps kept ps env (λ v cfg. refl),
                (
                  bool_field-Keeps kept env _ _ (λ v cfg. refl),
                  (
                    bool_field-Keeps kept env _ _ (λ v cfg. refl),
                    (int_field_outer-Keeps kept env _ 32 _ (λ v cfg. refl), tt),
                  ),
                ),
              ),
            ),
          ),
        ),
      ),
    ),
  ),
)
