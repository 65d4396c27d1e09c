-- ===== src/Config/Validate/Messages.antt =====
-- What it means for the settings that a step of `validateConfig` adds no message.
use sumologic_lambda_extensi.Base.{
  ℕ, ◌≡◌, ◌≢◌, Bool, true, false, Option, none, some, List, [], ◌∷◌, ◌++◌, String, ℤ, All,
  Bool-cases, Option-cases, inl, inr, arith,
}
use sumologic_lambda_extensi.Base.Text.{Text, is_empty, trim_space}
use sumologic_lambda_extensi.Utils.{string_in_slice}
use sumologic_lambda_extensi.Config.Numbers.{NumError, Parsed, parse_int, parse_bool}
use sumologic_lambda_extensi.Config.Defs.{
  LambdaExtensionConfig, Env, Parsers, not_set, not_valid, Checked, assign_error, valid_log_types,
}
use sumologic_lambda_extensi.Config.Validate.{
  check_endpoint, assign_int, bool_field, int_field, int_field_outer, check_buckets,
  check_log_level, clamp_given, check_types, run_steps,
}

pub snoc-ne-nil : {A : Type 0} (xs : List A) (x : A) → xs ++ x ∷ [] ≢ []
snoc-ne-nil [] x e = cc
snoc-ne-nil (y ∷ ys) x e = cc

-- No message is taken back: none afterwards means none before.
abbrev pub Clears : (Checked → Checked) → Type 0
Clears step = (c : Checked) → (step c).all_errors ≡ [] → c.all_errors ≡ []

assign_error-Clears : (name : String) (e : Option NumError) → Clears (assign_error name e)
assign_error-Clears name none c h = h
assign_error-Clears name (some e) c h = absurd (snoc-ne-nil c.all_errors _ h)

pub check_log_level-Clears : (ps : Parsers) (env : Env) → Clears (check_log_level ps env)
unfolding check_log_level
check_log_level-Clears ps env c h = elim (Bool-cases (is_empty (env "SUMO_LOG_LEVEL"))) [
  | inl unset ↦ rw unset at h
  | inr set ↦ elim (Option-cases (ps.parse_level (env "SUMO_LOG_LEVEL"))) [
    | inl none' ↦ absurd (snoc-ne-nil c.all_errors _ (rw (set, none', check_log_level) at h))
    | inr (level, e) ↦ rw (set, e, check_log_level) at h
  ]
]

module _ (env : Env) (name : String) where
  pub bool_field-Clears :
      (set : Bool → LambdaExtensionConfig → LambdaExtensionConfig)
      → Clears (bool_field env name set)
  unfolding bool_field
  bool_field-Clears set c h = ground (
    arith,
    assign_error-Clears name (parse_bool (env name)).error
        (record c { config = set (parse_bool (env name)).value c.config }),
  )

  pub int_field_outer-Clears :
      (bits : ℕ) (set : ℤ → LambdaExtensionConfig → LambdaExtensionConfig)
      → Clears (int_field_outer env bits name set)
  unfolding int_field_outer
  int_field_outer-Clears bits set c h = ground (
    arith,
    assign_error-Clears name (parse_int bits (env name)).error
        (record c { config = set (parse_int bits (env name)).value c.config }),
  )

  assign_int-Clears :
      (set : ℤ → LambdaExtensionConfig → LambdaExtensionConfig) (p : Parsed ℤ)
      → Clears (assign_int name set p)
  assign_int-Clears set p c h = elim (Option-cases p.error) [
    | inl fine ↦ rw fine at h
    | inr (e, bad) ↦ absurd (snoc-ne-nil c.all_errors _ (rw bad at h))
  ]

  pub int_field-Clears :
      (set : ℤ → LambdaExtensionConfig → LambdaExtensionConfig) → Clears (int_field env name set)
  unfolding int_field
  int_field-Clears set c h = ground (arith, assign_int-Clears set (parse_int 32 (env name)) c)

  pub clamp_given-Clears :
      (set : LambdaExtensionConfig → LambdaExtensionConfig) → Clears (clamp_given env name set)
  unfolding clamp_given
  clamp_given-Clears set c h = ground arith

pub run_steps-Clears :
    (steps : List (Checked → Checked)) → All Clears steps → Clears (run_steps steps)
unfolding run_steps
run_steps-Clears [] h c e = e
run_steps-Clears (step ∷ steps) h c e = h.0 c (run_steps-Clears steps h.1 (step c) e)

abbrev pub IsKnown : Text → Type 0
IsKnown t = string_in_slice (trim_space t) valid_log_types ≡ true

pub check_types-IsKnown :
    (ts : List Text) (c : Checked)
    → (check_types ts c).all_errors ≡ []
    → All IsKnown ts × (c.all_errors ≡ [])
unfolding check_types
check_types-IsKnown [] c h = (tt, h)
check_types-IsKnown (t ∷ ts) c h =
    let rest = check_types-IsKnown ts _ h in
    elim (Bool-cases (string_in_slice (trim_space t) valid_log_types)) [
      | inl known ↦ ((known, rest.0), rw known at (rest.1))
      | inr unknown ↦ absurd (snoc-ne-nil c.all_errors _ (rw unknown at (rest.1)))
    ]

-- The endpoint is set, and it is a URI unless it is encrypted.
abbrev pub IsEndpoint : Parsers → LambdaExtensionConfig → Type 0
IsEndpoint ps cfg =
    (is_empty cfg.sumo_http_endpoint ≡ false)
    × (is_empty cfg.kms_key_id ≡ true → ps.is_request_uri cfg.sumo_http_endpoint ≡ true)

pub check_endpoint-IsEndpoint :
    (ps : Parsers) (c : Checked) → (check_endpoint ps c).all_errors ≡ [] → IsEndpoint ps c.config
unfolding check_endpoint
check_endpoint-IsEndpoint ps c h = ground (
  arith,
  snoc-ne-nil c.all_errors (not_set "SUMO_HTTP_ENDPOINT"),
  snoc-ne-nil c.all_errors (not_valid "SUMO_HTTP_ENDPOINT"),
)

-- The failover has a bucket and its region, if it is enabled.
abbrev pub HasBucket : LambdaExtensionConfig → Type 0
HasBucket cfg =
    cfg.enable_failover ≡ true
    → (is_empty cfg.s3_bucket_name ≡ false) × (is_empty cfg.s3_bucket_region ≡ false)

pub check_buckets-HasBucket :
    (c : Checked) → (check_buckets c).all_errors ≡ [] → HasBucket c.config × (c.all_errors ≡ [])
unfolding check_buckets
check_buckets-HasBucket c h = ground (
  arith,
  snoc-ne-nil c.all_errors (not_set "SUMO_S3_BUCKET_NAME"),
  snoc-ne-nil c.all_errors (not_set "SUMO_S3_BUCKET_REGION"),
  snoc-ne-nil (c.all_errors ++ not_set "SUMO_S3_BUCKET_NAME" ∷ [])
      (not_set "SUMO_S3_BUCKET_REGION"),
)
