-- ===== src/Config/Validate/Integers.antt =====
-- The integer settings, from the texts of integers.
use sumologic_lambda_extensi.Base.{
  suc, ◌^◌, ◌<◌, ◌≤◌, ◌≡◌, ◌≢◌, refl, false, none, [], ◌∷◌, String, ℤ, pos, negsuc, neg_ℕ, arith,
}
use sumologic_lambda_extensi.Base.Text.{Text, is_empty, decimal}
use sumologic_lambda_extensi.Config.Numbers.{parse_int}
use sumologic_lambda_extensi.Config.NumberLaws.{
  parse_int-decimal, parse_int-minus_decimal, decimal-ne-nil,
}
use sumologic_lambda_extensi.Config.Defs.{LambdaExtensionConfig, Env, Checked}
use sumologic_lambda_extensi.Config.Validate.{int_field}

-- An integer as it is printed.
abbrev pub signed : ℤ → Text
signed (pos n) = decimal n
signed (negsuc n) = b'-' ∷ decimal (suc n)

abbrev pub IsInt32 : ℤ → Type 0
IsInt32 (pos n) = n < 2 ^ 31
IsInt32 (negsuc n) = suc n ≤ 2 ^ 31

parse_int-signed :
    (x : ℤ) → IsInt32 x → parse_int 32 (signed x) ≡ record { value = x; error = none }
parse_int-signed (pos n) h = parse_int-decimal 32 n (omega arith) h
parse_int-signed (negsuc n) h =
    let e : neg_ℕ (suc n) ≡ negsuc n = ground arith in
    rw e at (parse_int-minus_decimal 32 (suc n) (omega arith) h)

is_empty-false : (t : Text) → t ≢ [] → is_empty t ≡ false
is_empty-false [] h = absurd (h refl)
is_empty-false (c ∷ t) h = refl

signed-ne-nil : (x : ℤ) → is_empty (signed x) ≡ false
signed-ne-nil (pos n) = is_empty-false (decimal n) (decimal-ne-nil n)
signed-ne-nil (negsuc n) = refl

-- A variable that holds the text of a 32-bit integer sets its setting to that integer, and adds no
-- message.
pub int_field-signed :
    (env : Env) (name : String) (set : ℤ → LambdaExtensionConfig → LambdaExtensionConfig)
    (c : Checked) (x : ℤ)
    → IsInt32 x
    → env name ≡ signed x
    → int_field env name set c ≡ record c { config = set x c.config }
unfolding int_field
int_field-signed env name set c x h e =
    rw (e, signed-ne-nil x, parse_int-signed x h, int_field) refl
