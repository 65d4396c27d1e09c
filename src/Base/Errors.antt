-- ===== src/Base/Errors.antt =====
-- Go's `error` values, the `(value, error)` results, and state passing.
use Prim.Native.Nat.{ℕ}
use Prim.Native.String.{String}
use mathlib.Core.Bool.{Bool, true, false}
use mathlib.Core.List.{List}
use mathlib.Core.Path.{◌≡◌, refl}
use mathlib.Core.Logic.{◌⊎◌, inl, inr}

-- `foreign` is an error of a package that the program calls, `wrapped` is `fmt.Errorf` around one,
-- `flush_failed` and `flush_counted` are `FlushAll`'s message with and without an S3 error.
pub data Error : Type 0 where
  foreign : List ℕ → Error
  message : String → Error
  wrapped : String → Error → Error
  counted : String → ℕ → Error
  retry_limit : Error
  status_code : ℕ → Error
  request_failed : ℕ → List ℕ → Error
  flush_failed : ℕ → Error → Error
  flush_counted : ℕ → Error

pub data Result {ℓ} (A : Type ℓ) : Type ℓ where
  ok : A → Result A
  err : Error → Result A

abbrev pub is_ok {ℓ} : {A : Type ℓ} → Result A → Bool
is_ok (ok a) = true
is_ok (err e) = false

-- A call that reads and writes a state.
abbrev pub St {ℓ} : Type ℓ → Type ℓ → Type ℓ
St S A = S → A × S

pub Result-cases {ℓ} :
    {A : Type ℓ} (r : Result A) → ((a : A) × (r ≡ ok a)) ⊎ ((e : Error) × (r ≡ err e))
Result-cases (ok a) = inl (a, refl)
Result-cases (err e) = inr (e, refl)
