-- ===== src/Orders/Quantity.antt =====
-- `parseMilliQuantity` and `FormatQuantity`: decimal texts and numbers of thousandths.
pub mod Decimal
pub mod Accepted
pub mod RoundTrip
use launlog_api.Prelude.{
  exists, suc, ◌/◌, ◌%◌, ℕ, ◌+◌, ◌-◌, ◌*◌, ◌≤◌, ◌≡◌, Bool, true, false, not, ◌&&◌, ◌||◌, Option,
  none, some, List, [], ◌∷◌, ◌++◌, ◌==◌, ltb, leb, if◌then◌else◌, length, replicate, arith, refl,
  ap, ◌∙◌,
}
use launlog_api.Prelude.Text.{Bytes, trim_right}
use launlog_api.Prelude.Digits.{all_digits, digits_value, digits, padded}
use launlog_api.Prelude.Int.{ℤ, pos, negsuc}
use launlog_api.Effect.{Result, ok, err, invalid_order_quantity}

-- `strconv.ParseInt(s, 10, 64)` of an unsigned text of at most nine bytes.
abbrev pub parse_int : Bytes → Option ℕ
parse_int s = if not (length s == 0) && all_digits s then some (digits_value 0 s) else none

abbrev pub count_points : Bytes → ℕ
count_points [] = 0
count_points (c ∷ cs) = let rest = count_points cs in if c == 46 then rest + 1 else rest

-- `strings.SplitN(value, ".", 2)`: the text before the first point, and the one after it.
abbrev pub cut : Bytes → Bytes × Option Bytes
cut [] = ([], none)
cut (c ∷ cs) =
    let (before, after) = cut cs in if c == 46 then ([], some cs) else (c ∷ before, after)

abbrev pub has_sign : Bytes → Bool
has_sign [] = false
has_sign (c ∷ cs) = c == 43 || c == 45

unfoldable pub check_milli : ℕ → Result ℕ
check_milli milli =
    if milli == 0 || ltb 999999999999 milli then err invalid_order_quantity else ok milli

unfoldable pub with_fraction : ℕ → Option Bytes → Result ℕ
with_fraction whole none = check_milli (whole * 1000 + 0)
with_fraction whole (some f) =
    if length f == 0 || ltb 3 (length f)
    then err invalid_order_quantity
    else if not (all_digits f)
    then err invalid_order_quantity
    else elim (parse_int (f ++ replicate (3 - length f) 48)) [
      | none ↦ err invalid_order_quantity
      | some fraction ↦ check_milli (whole * 1000 + fraction)
    ]

unfoldable pub parse_parts : Bytes → Option Bytes → Result ℕ
parse_parts whole_text fraction_text =
    if length whole_text == 0 || ltb 9 (length whole_text)
    then err invalid_order_quantity
    else elim (parse_int whole_text) [
      | none ↦ err invalid_order_quantity
      | some whole ↦
          if not (all_digits whole_text)
          then err invalid_order_quantity
          else with_fraction whole fraction_text
    ]

unfoldable pub parse_milli_quantity : Bytes → Result ℕ
parse_milli_quantity value =
    if length value == 0 || has_sign value || ltb 1 (count_points value)
    then err invalid_order_quantity
    else let (whole_text, fraction_text) = cut value in parse_parts whole_text fraction_text

-- `quantity::text` of a NUMERIC(12,3), from its thousandths.
abbrev pub numeric_text : ℤ → Bytes
numeric_text (pos n) = digits (n / 1000) ++ 46 ∷ padded 3 (n % 1000)
numeric_text (negsuc n) = 45 ∷ (digits (suc n / 1000) ++ 46 ∷ padded 3 (suc n % 1000))

-- Removes insignificant trailing zeroes.
unfoldable pub format_quantity : Bytes → Bytes
format_quantity value =
    if exists (λ c. c == 46) value
    then trim_right (λ c. c == 46) (trim_right (λ c. c == 48) value)
    else value
