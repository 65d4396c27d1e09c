-- ===== src/Utils/RetryLaws.antt =====
-- What `Retry` promises, for every function that it is given.
use native.Mathlib.Numerals.{add-one}
use sumologic_lambda_extensi.Base.{
  not, ◌||◌, is_none, if◌then◌else◌, ℕ, zero, suc, ◌+◌, ◌<◌, ◌≡◌, refl, Bool, true, false, Option,
  none, some, Error, retry_limit, ℤ, pos_part, arith,
}
use sumologic_lambda_extensi.Utils.{Func, retry_rounds, retry}

module _ {S : Type 0} (fn : Func S) where
  -- `Failed a s k t`: the attempts from `a` on, up to but not including `k`, all failed and asked to
  -- go on, and they led from the state `s` to the state `t`.
  pub data Failed (a : ℕ) (s : S) : ℕ → S → Type 0 where
    start : Failed a s a s
    again :
        {k : ℕ} {t u : S} (e : Error)
        → Failed a s k t
        → fn k t ≡ ((true, some e), u)
        → Failed a s (suc k) u

  -- The ways for the loop to end; `limit` is the number behind that of the last attempt.
  pub data Ends (a : ℕ) (s : S) (limit : ℕ) : Option Error → S → Type 0 where
    exhausted : {t : S} → Failed a s limit t → Ends a s limit (some retry_limit) t
    succeeded :
        {k : ℕ} {t u : S} (cont : Bool)
        → k < limit
        → Failed a s k t
        → fn k t ≡ ((cont, none), u)
        → Ends a s limit none u
    gave_up :
        {k : ℕ} {t u : S} (e : Error)
        → k < limit
        → Failed a s k t
        → fn k t ≡ ((false, some e), u)
        → Ends a s limit (some e) u

  abbrev pub EndsBy : ℕ → S → ℕ → Option Error × S → Type 0
  EndsBy a s limit r = Ends a s limit r.0 r.1

  -- One round, given what the attempt returned and that the rounds after it end rightly.
  round-Ends :
      (a k limit : ℕ) (s t u : S) (cont : Bool) (e : Option Error) (rest : Option Error × S)
      → k < limit
      → Failed a s k t
      → fn k t ≡ ((cont, e), u)
      → (Failed a s (suc k) u → EndsBy a s limit rest)
      → EndsBy a s limit (if not cont || is_none e then (e, u) else rest)
  round-Ends a k limit s t u cont none rest h f q next = ground (arith, succeeded cont h f q)
  round-Ends a k limit s t u true (some e) rest h f q next = next (again e f q)
  round-Ends a k limit s t u false (some e) rest h f q next = gave_up e h f q

  retry_rounds-Ends :
      (n a k limit : ℕ) (s t : S)
      → k + n ≡ limit
      → Failed a s k t
      → EndsBy a s limit (retry_rounds fn n k t)
  unfolding retry_rounds
  retry_rounds-Ends zero a k limit s t h f =
      let e : k ≡ limit = omega arith in exhausted (rw e at f)
  retry_rounds-Ends (suc n) a k limit s t h f =
      round-Ends a k limit s t _ _ _ _ (omega arith) f refl
        (λ g. rw add-one (retry_rounds-Ends n a (suc k) limit s _ (omega arith) g))

  -- For every function and limit the loop ends in one of three ways: every attempt numbered from 1
  -- to the limit failed and asked to go on, and the error is the retry limit's (at once for a limit
  -- below 1); or the earlier attempts did and one within the limit returned no error, and neither
  -- does the loop; or one within the limit failed and asked to stop, and its error is returned. The
  -- state is the one which those attempts, each made once and in order, lead to.
  pub retry-Ends :
      (max_retries : ℤ) (s : S) → EndsBy 1 s (pos_part max_retries + 1) (retry fn max_retries s)
  unfolding retry
  retry-Ends max_retries s = retry_rounds-Ends (pos_part max_retries) 1 1 _ s s (omega arith) start
