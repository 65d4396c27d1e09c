-- ===== src/Utils.antt =====
-- lambda-extensions/utils/utils.go: the retry loop and the membership test.
pub mod RetryLaws
use sumologic_lambda_extensi.Base.{
  ℕ, zero, suc, ◌+◌, Bool, true, false, not, ◌||◌, Option, none, some, List, [], ◌∷◌, is_none,
  if◌then◌else◌, Error, retry_limit, St, ℤ, pos_part,
}
use sumologic_lambda_extensi.Base.Text.{Text, text_eq}

-- A function that can be retried: from the attempt's number, whether to go on, and its error.
abbrev pub Func : Type 0 → Type 0
Func S = ℕ → St S (Bool × Option Error)

module _ {S : Type 0} where
  -- The loop of `Retry` with `rounds` attempts left, the next of them numbered `attempt`.
  unfoldable pub retry_rounds : Func S → ℕ → ℕ → St S (Option Error)
  retry_rounds fn zero attempt s = (some retry_limit, s)
  retry_rounds fn (suc rounds) attempt s =
      let r = fn attempt s in
      let rest = retry_rounds fn rounds (attempt + 1) r.1 in
      if not r.0.0 || is_none r.0.1 then (r.0.1, r.1) else rest

  -- A limit below 1 allows no attempt at all.
  unfoldable pub retry : Func S → ℤ → St S (Option Error)
  retry fn max_retries s = retry_rounds fn (pos_part max_retries) 1 s

unfoldable pub string_in_slice : Text → List Text → Bool
string_in_slice a [] = false
string_in_slice a (b ∷ bs) = text_eq b a || string_in_slice a bs
