-- ===== src/Orders/Quantity/Decimal.antt =====
-- Which texts `parseMilliQuantity` accepts, and as what.
use launlog_api.Prelude.{
  ℕ, zero, suc, ◌+◌, ◌-◌, ◌*◌, ◌≤◌, ◌≡◌, true, false, none, some, [], ◌∷◌, ◌++◌, length, replicate,
  arith, refl, length-append,
}
use launlog_api.Prelude.Text.{Bytes}
use launlog_api.Effect.{ok}
use launlog_api.Prelude.Digits.{all_digits, digits_value}
use launlog_api.Orders.Quantity.{count_points, cut, has_sign, check_milli, with_fraction}

pub check_milli-bounds : (n m : ℕ) → check_milli n ≡ ok m → (1 ≤ m) × (m ≤ 999999999999)
unfolding check_milli
check_milli-bounds n m h = ground arith

pub count_points-digits : (cs : Bytes) → all_digits cs ≡ true → count_points cs ≡ 0
count_points-digits [] h = refl
count_points-digits (c ∷ cs) h = ground (arith, count_points-digits cs)

pub count_points-decimal :
    (w f : Bytes) → all_digits w ≡ true → all_digits f ≡ true → count_points (w ++ 46 ∷ f) ≡ 1
count_points-decimal [] f hw hf = omega (arith, count_points-digits f hf)
count_points-decimal (c ∷ w) f hw hf = ground (arith, count_points-decimal w f, hf)

pub cut-decimal : (w f : Bytes) → all_digits w ≡ true → cut (w ++ 46 ∷ f) ≡ (w, some f)
cut-decimal [] f h = refl
cut-decimal (c ∷ w) f h = ground (arith, cut-decimal w f)

pub cut-digits : (w : Bytes) → all_digits w ≡ true → cut w ≡ (w, none)
cut-digits [] h = refl
cut-digits (c ∷ w) h = ground (arith, cut-digits w)

pub has_sign-digits : (w f : Bytes) → all_digits w ≡ true → 1 ≤ length w → has_sign (w ++ f) ≡ false
has_sign-digits [] f h long = ground arith
has_sign-digits (c ∷ w) f h long = ground arith

all_digits-zeros :
    (f : Bytes) (n : ℕ) → all_digits f ≡ true → all_digits (f ++ replicate n 48) ≡ true
all_digits-zeros [] zero h = refl
all_digits-zeros [] (suc n) h = all_digits-zeros [] n h
all_digits-zeros (c ∷ f) n h = ground (arith, all_digits-zeros f n)

-- What a digit after the point counts, in thousandths.
abbrev pub scale : ℕ → ℕ
scale (suc zero) = 100
scale (suc (suc zero)) = 10
scale _ = 1

padded_value :
    (f : Bytes)
    → 1 ≤ length f
    → length f ≤ 3
    → digits_value 0 (f ++ replicate (3 - length f) 48) ≡ digits_value 0 f * scale (length f)
padded_value [] low high = omega arith
padded_value (a ∷ []) low high = omega arith
padded_value (a ∷ b ∷ []) low high = omega arith
padded_value (a ∷ b ∷ c ∷ []) low high = omega arith
padded_value (a ∷ b ∷ c ∷ d ∷ f) low high = omega arith

-- The decimal texts of one to nine digits, and of one to three more after a point, with the
-- thousandths that they write.
pub data IsDecimal : Bytes → ℕ → Type 0 where
  whole_number :
      (w : Bytes)
      → all_digits w ≡ true
      → 1 ≤ length w
      → length w ≤ 9
      → IsDecimal w (digits_value 0 w * 1000)
  with_point :
      (w f : Bytes)
      → all_digits w ≡ true
      → 1 ≤ length w
      → length w ≤ 9
      → all_digits f ≡ true
      → 1 ≤ length f
      → length f ≤ 3
      → IsDecimal (w ++ 46 ∷ f) (digits_value 0 w * 1000 + digits_value 0 f * scale (length f))

pub with_fraction-padded :
    (n : ℕ) (f : Bytes)
    → all_digits f ≡ true
    → 1 ≤ length f
    → length f ≤ 3
    → with_fraction n (some f) ≡ check_milli (n * 1000 + digits_value 0 f * scale (length f))
unfolding with_fraction
with_fraction-padded n f hf low high = ground (
  arith,
  all_digits-zeros f (3 - length f) hf,
  padded_value f low high,
  length-append f (replicate (3 - length f) 48),
)

pub check_milli-ok : (m : ℕ) → 1 ≤ m → m ≤ 999999999999 → check_milli m ≡ ok m
unfolding check_milli
check_milli-ok m low high = ground arith
