-- ===== src/Config/Numbers.antt =====
-- `strconv.ParseInt` in base 10 and `strconv.ParseBool`, as config.go calls them.
use sumologic_lambda_extensi.Base.{
  ℕ, ◌+◌, ◌-◌, ◌*◌, ◌^◌, Bool, true, false, ◌&&◌, Option, none, some, List, [], ◌∷◌, map, ltb, leb,
  ◌==◌, if◌then◌else◌, ℤ, pos, neg_ℕ,
}
use sumologic_lambda_extensi.Base.Text.{Text, codes, text_eq}
use sumologic_lambda_extensi.Utils.{string_in_slice}

-- `strconv.ErrSyntax` and `strconv.ErrRange`.
pub data NumError : Type 0 where
  syntax range : NumError

-- The value counts also beside an error: it is what the caller assigns.
pub record Parsed (A : Type 0) : Type 0 where
  pub value : A
  pub error : Option NumError

pub data Digits : Type 0 where
  number : ℕ → Digits
  bad_digit too_large : Digits

-- The loop of `strconv.ParseUint`, which stops at the first digit that goes beyond `max`.
unfoldable pub digits_loop : ℕ → Text → ℕ → Digits
digits_loop max [] n = number n
digits_loop max (c ∷ s) n =
    let rest = digits_loop max s (n * 10 + (c - b'0')) in
    if leb b'0' c && leb c b'9'
    then (if ltb max (n * 10 + (c - b'0')) then too_large else rest)
    else bad_digit

unfoldable pub parse_uint : ℕ → Text → Digits
unfolding digits_loop
parse_uint bits [] = bad_digit
parse_uint bits (c ∷ s) = digits_loop (2 ^ bits - 1) (c ∷ s) 0

-- A magnitude, read as a number without and with a minus sign; `cutoff` is 2^(bits - 1).
unfoldable pub positive : ℕ → Digits → Parsed ℤ
positive cutoff bad_digit = record { value = pos 0; error = some syntax }
positive cutoff too_large = record { value = pos (cutoff - 1); error = some range }
positive cutoff (number n) =
    if leb cutoff n
    then record { value = pos (cutoff - 1); error = some range }
    else record { value = pos n; error = none }

unfoldable pub negative : ℕ → Digits → Parsed ℤ
negative cutoff bad_digit = record { value = pos 0; error = some syntax }
negative cutoff too_large = record { value = neg_ℕ cutoff; error = some range }
negative cutoff (number n) =
    if ltb cutoff n
    then record { value = neg_ℕ cutoff; error = some range }
    else record { value = neg_ℕ n; error = none }

-- `strconv.ParseInt(s, 10, bits)`.
unfoldable pub parse_int : ℕ → Text → Parsed ℤ
unfolding parse_uint positive negative
parse_int bits [] = record { value = pos 0; error = some syntax }
parse_int bits (c ∷ s) =
    if c == b'+'
    then positive (2 ^ (bits - 1)) (parse_uint bits s)
    else if c == b'-'
    then negative (2 ^ (bits - 1)) (parse_uint bits s)
    else positive (2 ^ (bits - 1)) (parse_uint bits (c ∷ s))

abbrev true_words : List Text
true_words = map codes ("1" ∷ "t" ∷ "T" ∷ "TRUE" ∷ "true" ∷ "True" ∷ [])

abbrev false_words : List Text
false_words = map codes ("0" ∷ "f" ∷ "F" ∷ "FALSE" ∷ "false" ∷ "False" ∷ [])

-- `strconv.ParseBool(s)`.
unfoldable pub parse_bool : Text → Parsed Bool
unfolding text_eq string_in_slice
parse_bool s =
    if string_in_slice s true_words
    then record { value = true; error = none }
    else if string_in_slice s false_words
    then record { value = false; error = none }
    else record { value = false; error = some syntax }
