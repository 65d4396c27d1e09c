-- ===== src/Config/NumberLaws.antt =====
-- What config.go relies on when it reads a number.
use mathlib.Core.List.{reverse, reverse-cons}
use native.Mathlib.Nat.{pow-suc}
use sumologic_lambda_extensi.Base.{
  sym, ◌≢◌, ℕ, zero, suc, ◌+◌, ◌-◌, ◌*◌, ◌/◌, ◌%◌, ◌^◌, ◌≤◌, ◌<◌, ◌≡◌, refl, ap, ◌∙◌, none, List,
  [], ◌∷◌, ◌++◌, append_assoc, append-nil, ltb, Bool-cases, inl, inr, tests, ℤ, pos, pos_part,
  neg_part, neg_ℕ, arith,
}
use sumologic_lambda_extensi.Base.Text.{Text, digits_from, decimal}
use sumologic_lambda_extensi.Config.Numbers.{
  Digits, number, digits_loop, parse_uint, positive, negative, parse_int,
}

-- One more digit is read.
digits_loop-digit :
    (max n d : ℕ) (rest : Text)
    → d < 10
    → n * 10 + d ≤ max
    → digits_loop max ((b'0' + d) ∷ rest) n ≡ digits_loop max rest (n * 10 + d)
unfolding digits_loop
digits_loop-digit max n d rest h k = let e : b'0' + d - b'0' ≡ d = omega arith in ground arith

-- The printed digits of a number that is in range are read as that number.
digits_loop-digits :
    (max fuel n : ℕ) (rest : Text)
    → n < fuel
    → n ≤ max
    → digits_loop max (reverse (digits_from fuel n) ++ rest) 0 ≡ digits_loop max rest n
unfolding digits_from
digits_loop-digits max zero n rest h k = elim h [ ]
digits_loop-digits max (suc fuel) n rest h k = elim (Bool-cases (ltb n 10)) [
  | inl small ↦ rw small (
      digits_loop-digit max 0 n rest (omega tests) (omega arith)
      ∙ ap (digits_loop max rest) (omega arith))
  | inr big ↦
      rw (big, reverse-cons, append_assoc)
        (digits_loop-digits max fuel (n / 10) ((b'0' + n % 10) ∷ rest) (ground arith) (omega arith)
          ∙ digits_loop-digit max (n / 10) (n % 10) rest (omega arith) (omega arith)
          ∙ ap (digits_loop max rest) (omega arith))
]

abbrev InRange : ℕ → ℤ → Type 0
InRange cutoff i = (pos_part i < cutoff) × (neg_part i ≤ cutoff)

positive_bounds : (cutoff : ℕ) (d : Digits) → 0 < cutoff → InRange cutoff (positive cutoff d).value
unfolding positive
positive_bounds cutoff (number n) h = ground arith
positive_bounds cutoff d h = ground arith

negative_bounds : (cutoff : ℕ) (d : Digits) → 0 < cutoff → InRange cutoff (negative cutoff d).value
unfolding negative
negative_bounds cutoff (number n) h = ground arith
negative_bounds cutoff d h = ground arith

digits_loop-decimal : (max n : ℕ) → n ≤ max → digits_loop max (decimal n) 0 ≡ number n
unfolding decimal digits_loop
digits_loop-decimal max n h =
    ap (λ s. digits_loop max s 0) (sym (append-nil (reverse (digits_from (suc n) n))))
    ∙ digits_loop-digits max (suc n) n [] (omega arith) h

parse_uint-digits :
    (bits n : ℕ) (s : Text)
    → s ≢ []
    → digits_loop (2 ^ bits - 1) s 0 ≡ number n
    → parse_uint bits s ≡ number n
unfolding parse_uint
parse_uint-digits bits n [] h e = absurd (h refl)
parse_uint-digits bits n (c ∷ s) h e = e

parse_int-digits :
    (bits n : ℕ) (s : Text)
    → digits_loop (2 ^ bits - 1) s 0 ≡ number n
    → s ≢ []
    → n < 2 ^ (bits - 1)
    → parse_int bits s ≡ record { value = pos n; error = none }
unfolding parse_int digits_loop
parse_int-digits bits n [] e h k = absurd (h refl)
parse_int-digits bits n (c ∷ s) e h k = ground arith

append-ne-nil {ℓ} : {A : Type ℓ} (xs : List A) (x : A) → xs ++ x ∷ [] ≢ []
append-ne-nil [] x e = cc
append-ne-nil (y ∷ xs) x e = cc

pub decimal-ne-nil : (n : ℕ) → decimal n ≢ []
unfolding decimal digits_from
decimal-ne-nil n e = elim (Bool-cases (ltb n 10)) [
  | inl small ↦ append-ne-nil [] (b'0' + n) (rw (small, reverse-cons) at e)
  | inr big ↦
      append-ne-nil (reverse (digits_from n (n / 10))) (b'0' + n % 10) (rw (big, reverse-cons) at e)
]

max_of_half : (bits n : ℕ) → 0 < bits → n ≤ 2 ^ (bits - 1) → n ≤ 2 ^ bits - 1
max_of_half zero n h k = elim h [ ]
max_of_half (suc b) n h k =
    let e : suc b - 1 ≡ b = omega arith in
    let k' : n ≤ 2 ^ b = rw e at k in omega (arith, pow-suc 2 b)

-- A printed number below 2^(bits - 1) is read as itself with no error.
pub parse_int-decimal :
    (bits n : ℕ)
    → 0 < bits
    → n < 2 ^ (bits - 1)
    → parse_int bits (decimal n) ≡ record { value = pos n; error = none }
parse_int-decimal bits n h k =
    parse_int-digits bits n (decimal n)
      (digits_loop-decimal _ n (max_of_half bits n h (omega arith))) (decimal-ne-nil n) k

-- So is one up to 2^(bits - 1) behind a minus sign, as the negative number.
pub parse_int-minus_decimal :
    (bits n : ℕ)
    → 0 < bits
    → n ≤ 2 ^ (bits - 1)
    → parse_int bits (b'-' ∷ decimal n) ≡ record { value = neg_ℕ n; error = none }
unfolding parse_int
parse_int-minus_decimal bits n h k =
    rw
      (parse_uint-digits bits n (decimal n) (decimal-ne-nil n)
        (digits_loop-decimal _ n (max_of_half bits n h k)))
      (ground arith)

-- Whatever the text is, the value lies in the range of a signed integer of `bits` bits.
pub parse_int_bounds :
    (bits : ℕ) (s : Text)
    → 0 < 2 ^ (bits - 1)
    → (pos_part (parse_int bits s).value < 2 ^ (bits - 1))
      × (neg_part (parse_int bits s).value ≤ 2 ^ (bits - 1))
unfolding parse_int
parse_int_bounds bits [] h = ground arith
parse_int_bounds bits (c ∷ s) h = ground (
  arith,
  positive_bounds (2 ^ (bits - 1)) (parse_uint bits s) h,
  positive_bounds (2 ^ (bits - 1)) (parse_uint bits (c ∷ s)) h,
  negative_bounds (2 ^ (bits - 1)) (parse_uint bits s) h,
)
