-- ===== src/Config/Validate/Problems/Adding.antt =====
-- Each step of `validateConfig` adds its own messages behind those before it, and sets `err` only with one.
use sumologic_lambda_extensi.Base.{
  ℕ, ◌≡◌, refl, ◌∙◌, ap, sym, Bool, true, false, Bool-cases, Option-cases, Option, none, some, inl,
  inr, List, [], ◌∷◌, ◌++◌, append-nil, append_assoc, String, if◌then◌else◌, ℤ,
}
use sumologic_lambda_extensi.Base.Text.{Text, is_empty, trim_space}
use sumologic_lambda_extensi.Utils.{string_in_slice}
use sumologic_lambda_extensi.Config.Numbers.{NumError, Parsed, parse_int, parse_bool}
use sumologic_lambda_extensi.Config.Defs.{
  LambdaExtensionConfig, Env, Parsers, ConfigError, ConfigFailure, unsupported_type, Checked,
  add_error, assign_error, valid_log_types,
}
use sumologic_lambda_extensi.Config.Validate.{
  assign_int, assign_outer, bool_field, int_field, int_field_outer, check_log_level, clamp_given,
  check_types, run_steps,
}
use sumologic_lambda_extensi.Config.Validate.Messages.{snoc-ne-nil}
use sumologic_lambda_extensi.Config.Validate.Problems.{
  problem_if, parse_problem, flatten, int_problem, bool_problem, level_problem, type_problems,
}

-- `d` has these messages behind those of `c`, and if it has none at all, its `err` is nil.
pub record Adds (ms : List ConfigError) (c d : Checked) : Type 0 where
  pub all : d.all_errors ≡ c.all_errors ++ ms
  pub sound : (c.all_errors ≡ [] → c.failure ≡ none) → d.all_errors ≡ [] → d.failure ≡ none

pub Adds-trans :
    {ms ns : List ConfigError} {c d e : Checked} → Adds ms c d → Adds ns d e → Adds (ms ++ ns) c e
Adds-trans {ms} {ns} {c} a b = record {
  all = b.all ∙ ap (λ l. l ++ ns) a.all ∙ append_assoc c.all_errors ms ns;
  sound = λ h. b.sound (a.sound h);
}

-- A step that changes the settings only.
pub Adds-none : (c : Checked) (cfg : LambdaExtensionConfig) → Adds [] c (record c { config = cfg })
Adds-none c cfg = record { all = sym (append-nil c.all_errors); sound = λ h. h }

-- A step that adds a message.
pub Adds-one :
    (c : Checked) (cfg : LambdaExtensionConfig) (e : ConfigError) (f : Option ConfigFailure)
    → Adds (e ∷ []) c (record { config = cfg; all_errors = c.all_errors ++ e ∷ []; failure = f })
Adds-one c cfg e f = record { all = refl; sound = λ h n. absurd (snoc-ne-nil c.all_errors e n) }

-- A step that clears `err`.
pub Adds-cleared :
    (c : Checked) (cfg : LambdaExtensionConfig)
    → Adds [] c (record c { config = cfg; failure = none })
Adds-cleared c cfg = record { all = sym (append-nil c.all_errors); sound = λ h n. refl }

pub Adds-if :
    (b : Bool) (ms : List ConfigError) (c d : Checked)
    → (b ≡ false → Adds ms c d)
    → Adds (if b then [] else ms) c (if b then c else d)
Adds-if true ms c d h = Adds-none c c.config
Adds-if false ms c d h = h refl

pub Adds-problem :
    (b : Bool) (e : ConfigError) (c : Checked)
    → Adds (problem_if b e) c (if b then add_error e c else c)
Adds-problem true e c = Adds-one c c.config e c.failure
Adds-problem false e c = Adds-none c c.config

assign_error-Adds :
    (name : String) (e : Option NumError) (cfg : LambdaExtensionConfig) (c : Checked)
    → Adds (parse_problem name e) c (assign_error name e (record c { config = cfg }))
assign_error-Adds name none cfg c = Adds-cleared c cfg
assign_error-Adds name (some e) cfg c = Adds-one c cfg _ _

assign_int-Adds :
    (name : String) (set : ℤ → LambdaExtensionConfig → LambdaExtensionConfig) (p : Parsed ℤ)
    (c : Checked)
    → Adds (parse_problem name p.error) c (assign_int name set p c)
assign_int-Adds name set p c = elim (Option-cases p.error) [
  | inl fine ↦ rw fine (Adds-none c (set p.value c.config))
  | inr (e, bad) ↦ rw bad (Adds-one c c.config _ c.failure)
]

module _ (ps : Parsers) (env : Env) (name : String) (c : Checked) where
  pub clamp_given-Adds :
      (set : LambdaExtensionConfig → LambdaExtensionConfig) → Adds [] c (clamp_given env name set c)
  unfolding clamp_given
  clamp_given-Adds set = elim (Bool-cases (is_empty (env name))) [
    | inl unset ↦ rw unset (Adds-none c c.config)
    | inr set' ↦ rw set' (Adds-none c (set c.config))
  ]

  pub int_field-Adds :
      (set : ℤ → LambdaExtensionConfig → LambdaExtensionConfig)
      → Adds (int_problem ps env 32 name) c (int_field env name set c)
  unfolding int_field
  int_field-Adds set =
      let p = parse_int 32 (env name) in
      Adds-if (is_empty (env name)) (parse_problem name p.error) c (assign_int name set p c)
        (λ h. assign_int-Adds name set p c)

  pub int_field_outer-Adds :
      (bits : ℕ) (set : ℤ → LambdaExtensionConfig → LambdaExtensionConfig)
      → Adds (int_problem ps env bits name) c (int_field_outer env bits name set c)
  unfolding int_field_outer
  int_field_outer-Adds bits set =
      let p = parse_int bits (env name) in
      Adds-if (is_empty (env name)) (parse_problem name p.error) c (assign_outer name set p c)
        (λ h. assign_error-Adds name p.error (set p.value c.config) c)

  pub bool_field-Adds :
      (set : Bool → LambdaExtensionConfig → LambdaExtensionConfig)
      → Adds (bool_problem ps env name) c (bool_field env name set c)
  unfolding bool_field
  bool_field-Adds set =
      let p = parse_bool (env name) in
      Adds-if (is_empty (env name)) (parse_problem name p.error) c (assign_outer name set p c)
        (λ h. assign_error-Adds name p.error (set p.value c.config) c)

pub check_log_level-Adds :
    (ps : Parsers) (env : Env) (c : Checked)
    → Adds (level_problem ps env) c (check_log_level ps env c)
unfolding check_log_level
check_log_level-Adds ps env c = elim (Bool-cases (is_empty (env "SUMO_LOG_LEVEL"))) [
  | inl unset ↦ rw unset (Adds-none c c.config)
  | inr set' ↦ elim (Option-cases (ps.parse_level (env "SUMO_LOG_LEVEL"))) [
    | inl bad ↦ rw (set', bad) (Adds-one c c.config _ c.failure)
    | inr (level, fine) ↦ rw (set', fine) (Adds-none c _)
  ]
]

pub check_types-Adds :
    (ps : Parsers) (env : Env) (ts : List Text) (c : Checked)
    → Adds (type_problems ps env ts) c (check_types ts c)
unfolding check_types
check_types-Adds ps env [] c = Adds-none c c.config
check_types-Adds ps env (t ∷ ts) c =
    elim (Bool-cases (string_in_slice (trim_space t) valid_log_types)) [
      | inl known ↦ rw known (check_types-Adds ps env ts c)
      | inr unknown ↦ rw unknown (
          Adds-trans (Adds-one c c.config _ c.failure)
            (check_types-Adds ps env ts (add_error (unsupported_type t) c)))
    ]

abbrev pub AllAdds : List (Checked → Checked) → List (List ConfigError) → Type 0
AllAdds [] [] = Unit
AllAdds (step ∷ steps) (ms ∷ mss) = ((c : Checked) → Adds ms c (step c)) × AllAdds steps mss
AllAdds _ _ = ⊥

pub run_steps-Adds :
    (steps : List (Checked → Checked)) (mss : List (List ConfigError))
    → AllAdds steps mss
    → (c : Checked) → Adds (flatten mss) c (run_steps steps c)
unfolding run_steps
run_steps-Adds [] [] h c = Adds-none c c.config
run_steps-Adds [] (ms ∷ mss) h c = absurd h
run_steps-Adds (step ∷ steps) [] h c = absurd h
run_steps-Adds (step ∷ steps) (ms ∷ mss) h c =
    Adds-trans (h.0 c) (run_steps-Adds steps mss h.1 (step c))
