-- ===== src/Config/Validate/Given/Stored.antt =====
-- What a step of an integer setting stores.
use sumologic_lambda_extensi.Base.{
  ◌≡◌, refl, none, some, String, if◌then◌else◌, ℤ, pos, Option-cases, Bool-cases, inl, inr, arith,
}
use sumologic_lambda_extensi.Base.Text.{Text, is_empty}
use sumologic_lambda_extensi.Config.Numbers.{parse_int}
use sumologic_lambda_extensi.Config.Defs.{LambdaExtensionConfig, Env, Checked}
use sumologic_lambda_extensi.Config.Validate.{int_field}

-- What a variable gives: the default if it is not set, its integer if it holds one, and 0 otherwise.
abbrev pub given : (ℤ → ℤ) → ℤ → Text → ℤ
given convert default text = if is_empty text then default else elim (parse_int 32 text).error [
  | none ↦ convert (parse_int 32 text).value
  | some e ↦ pos 0
]

abbrev pub stored : (ℤ → ℤ) → Text → ℤ → ℤ
stored convert text old =
    if is_empty text
    then old
    else elim (parse_int 32 text).error [ none ↦ convert (parse_int 32 text).value | some e ↦ old ]

pub stored-given :
    (convert : ℤ → ℤ) (default : ℤ) (text : Text)
    → stored convert text (if is_empty text then default else pos 0) ≡ given convert default text
stored-given convert default text = ground arith

pub int_field-stored :
    (f : LambdaExtensionConfig → ℤ) (convert : ℤ → ℤ) (env : Env) (name : String)
    (set : ℤ → LambdaExtensionConfig → LambdaExtensionConfig) (c : Checked)
    → ((v : ℤ) (cfg : LambdaExtensionConfig) → f (set v cfg) ≡ convert v)
    → f (int_field env name set c).config ≡ stored convert (env name) (f c.config)
unfolding int_field
int_field-stored f convert env name set c h = elim (Bool-cases (is_empty (env name))) [
  | inl unset ↦ rw unset refl
  | inr set' ↦ elim (Option-cases (parse_int 32 (env name)).error) [
    | inl fine ↦ rw (set', fine) (h (parse_int 32 (env name)).value c.config)
    | inr (e, bad) ↦ rw (set', bad) refl
  ]
]
