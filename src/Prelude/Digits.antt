-- ===== src/Prelude/Digits.antt =====
-- Decimal digits, as `fmt` and PostgreSQL print them.
use Prim.Native.Nat.{ℕ, zero, suc, ◌+◌, ◌-◌, ◌*◌, ◌/◌, ◌%◌, ◌<◌, ◌≤◌}
use mathlib.Core.Path.{◌≡◌, refl, ap, ◌∙◌}
use mathlib.Core.List.{List, [], ◌∷◌, ◌++◌}
use mathlib.Core.Logic.{inl, inr}
use mathlib.Core.Bool.{Bool, true, ◌&&◌}
use native.Mathlib.Omega.{arith}
use launlog_api.Prelude.Tests.{leb, ◌==◌, if◌then◌else◌, Bool-cases}
use launlog_api.Prelude.Lists.{length, replicate, length-append}

-- The digits of a number in front of `out`, with fuel for each digit.
unfoldable pub digits_onto : ℕ → ℕ → List ℕ → List ℕ
digits_onto zero n out = out
digits_onto (suc fuel) n out =
    let last = (48 + n % 10) ∷ out in
    let rest = digits_onto fuel (n / 10) last in if n / 10 == 0 then last else rest

-- `strconv.Itoa` of a number that is not negative. The number is fuel enough for its digits.
unfoldable pub digits : ℕ → List ℕ
unfolding digits_onto
digits n = digits_onto (suc n) n []

-- `%0wd` of a number that is not negative.
unfoldable pub padded : ℕ → ℕ → List ℕ
padded w n = let ds = digits n in replicate (w - length ds) 48 ++ ds

-- The number that decimal digits write, after the digits that gave `acc`.
abbrev pub digits_value : ℕ → List ℕ → ℕ
digits_value acc [] = acc
digits_value acc (c ∷ cs) = digits_value (acc * 10 + (c - 48)) cs

digits_onto-value :
    (fuel n : ℕ) (out : List ℕ)
    → n < fuel
    → digits_value 0 (digits_onto fuel n out) ≡ digits_value n out
unfolding digits_onto
digits_onto-value zero n out h = elim h [ ]
digits_onto-value (suc fuel) n out h = elim (Bool-cases (n / 10 == 0)) [
  | inl done ↦ rw done (ap (λ k. digits_value k out) (ground arith))
  | inr more ↦ rw more (
      digits_onto-value fuel (n / 10) ((48 + n % 10) ∷ out) (ground arith)
      ∙ ap (λ k. digits_value k out) (omega arith))
]

-- Reading the digits of a number gives it back.
pub digits-value : (n : ℕ) → digits_value 0 (digits n) ≡ n
unfolding digits
digits-value n = digits_onto-value (suc n) n [] (omega arith)

digits_value-zeros :
    (k : ℕ) (cs : List ℕ) → digits_value 0 (replicate k 48 ++ cs) ≡ digits_value 0 cs
digits_value-zeros zero cs = refl
digits_value-zeros (suc k) cs = digits_value-zeros k cs

pub padded-value : (w n : ℕ) → digits_value 0 (padded w n) ≡ n
unfolding padded
padded-value w n = digits_value-zeros (w - length (digits n)) (digits n) ∙ digits-value n

abbrev pub is_digit : ℕ → Bool
is_digit c = leb 48 c && leb c 57

abbrev pub all_digits : List ℕ → Bool
all_digits [] = true
all_digits (c ∷ cs) = is_digit c && all_digits cs

digits_onto-all :
    (fuel n : ℕ) (out : List ℕ) → all_digits out ≡ true → all_digits (digits_onto fuel n out) ≡ true
unfolding digits_onto
digits_onto-all zero n out h = h
digits_onto-all (suc fuel) n out h =
    ground (arith, digits_onto-all fuel (n / 10) ((48 + n % 10) ∷ out))

all_digits-zeros :
    (k : ℕ) (cs : List ℕ) → all_digits cs ≡ true → all_digits (replicate k 48 ++ cs) ≡ true
all_digits-zeros zero cs h = h
all_digits-zeros (suc k) cs h = all_digits-zeros k cs h

pub digits-all : (n : ℕ) → all_digits (digits n) ≡ true
unfolding digits
digits-all n = digits_onto-all (suc n) n [] refl

pub padded-all : (w n : ℕ) → all_digits (padded w n) ≡ true
unfolding padded
padded-all w n = all_digits-zeros (w - length (digits n)) (digits n) (digits-all n)

abbrev pub pow10 : ℕ → ℕ
pow10 zero = 1
pow10 (suc w) = 10 * pow10 w

-- A number below 10 ^ (w + 1) has at most w + 1 digits.
digits_onto-length :
    (fuel n w : ℕ) (out : List ℕ)
    → n < fuel
    → n < pow10 (suc w)
    → length (digits_onto fuel n out) ≤ suc w + length out
unfolding digits_onto
digits_onto-length zero n w out h low = elim h [ ]
digits_onto-length (suc fuel) n zero out h low = ground arith
digits_onto-length (suc fuel) n (suc w) out h low =
    ground (arith, digits_onto-length fuel (n / 10) w ((48 + n % 10) ∷ out))

pub digits-length : (n w : ℕ) → n < pow10 (suc w) → length (digits n) ≤ suc w
unfolding digits
digits-length n w h = omega (arith, digits_onto-length (suc n) n w [] (omega arith) h)

digits_onto-long : (fuel n : ℕ) (out : List ℕ) → length out ≤ length (digits_onto fuel n out)
unfolding digits_onto
digits_onto-long zero n out = omega arith
digits_onto-long (suc fuel) n out =
    ground (arith, digits_onto-long fuel (n / 10) ((48 + n % 10) ∷ out))

pub digits-positive : (n : ℕ) → 1 ≤ length (digits n)
unfolding digits digits_onto
digits-positive n = ground (arith, digits_onto-long n (n / 10) ((48 + n % 10) ∷ []))

length-replicate : (k c : ℕ) → length (replicate k c) ≡ k
length-replicate zero c = refl
length-replicate (suc k) c = omega (arith, length-replicate k c)

-- A number below 10 ^ (w + 1), padded to w + 1 digits, has as many.
pub padded-length : (n w : ℕ) → n < pow10 (suc w) → length (padded (suc w) n) ≡ suc w
unfolding padded
padded-length n w h = omega (
  arith,
  length-append (replicate (suc w - length (digits n)) 48) (digits n),
  length-replicate (suc w - length (digits n)) 48,
  digits-length n w h,
)
