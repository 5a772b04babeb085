-- ===== src/Orders/Quantity/Accepted.antt =====
-- `parseMilliQuantity` accepts the decimal texts whose value is in range, and no others.
use mathlib.Core.List.{append-nil}
use launlog_api.Prelude.{
  ℕ, ◌*◌, ◌≤◌, ◌≡◌, Bool, true, false, ◌||◌, Option, none, some, [], ◌∷◌, ◌++◌, ◌==◌, ltb,
  if◌then◌else◌, length, arith, refl, ap, ◌∙◌, sym, subst, Bool-cases, inl, inr, length-append,
}
use launlog_api.Prelude.Text.{Bytes}
use launlog_api.Effect.{Result, ok, err, invalid_order_quantity}
use launlog_api.Prelude.Digits.{all_digits, digits_value}
use launlog_api.Orders.Quantity.{
  count_points, cut, has_sign, check_milli, with_fraction, parse_parts, parse_milli_quantity,
}
use launlog_api.Orders.Quantity.Decimal.{
  IsDecimal, whole_number, with_point, check_milli-bounds, check_milli-ok, count_points-decimal,
  count_points-digits, cut-decimal, cut-digits, has_sign-digits, with_fraction-padded,
}

parse_parts-whole :
    (w : Bytes) (f : Option Bytes)
    → all_digits w ≡ true
    → 1 ≤ length w
    → length w ≤ 9
    → parse_parts w f ≡ with_fraction (digits_value 0 w) f
unfolding parse_parts
parse_parts-whole w f hw low high = ground arith

parse-cut :
    (v w : Bytes) (f : Option Bytes)
    → 1 ≤ length v
    → has_sign v ≡ false
    → count_points v ≤ 1
    → cut v ≡ (w, f)
    → parse_milli_quantity v ≡ parse_parts w f
unfolding parse_milli_quantity
parse-cut v w f low unsigned points e =
    rw (guards v low unsigned points) (ap (λ (p : Bytes × Option Bytes). parse_parts p.0 p.1) e)
  where
    guards :
        (v : Bytes)
        → 1 ≤ length v
        → has_sign v ≡ false
        → count_points v ≤ 1
        → length v == 0 || has_sign v || ltb 1 (count_points v) ≡ false
    guards v low unsigned points = ground arith

-- A decimal text whose value in thousandths is from 1 to 999999999999 is accepted as that value.
pub parse_milli_quantity_complete :
    (v : Bytes) (m : ℕ) → IsDecimal v m → 1 ≤ m → m ≤ 999999999999 → parse_milli_quantity v ≡ ok m
unfolding with_fraction
parse_milli_quantity_complete v m (whole_number w hw low high) one most =
    parse-cut w w none low
      (subst (λ u. has_sign u ≡ false) (append-nil w) (has_sign-digits w [] hw low))
      (omega (arith, count_points-digits w hw)) (cut-digits w hw)
    ∙ (parse_parts-whole w none hw low high
        ∙ (ap check_milli (omega arith) ∙ check_milli-ok _ one most))
parse_milli_quantity_complete v m (with_point w f hw low high hf flow fhigh) one most =
    parse-cut (w ++ 46 ∷ f) w (some f) (omega (arith, length-append w (46 ∷ f)))
      (has_sign-digits w (46 ∷ f) hw low) (omega (arith, count_points-decimal w f hw hf))
      (cut-decimal w f hw)
    ∙ (parse_parts-whole w (some f) hw low high
        ∙ (with_fraction-padded (digits_value 0 w) f hf flow fhigh ∙ check_milli-ok _ one most))

-- The text that the two sides of a cut came from.
abbrev uncut : Bytes × Option Bytes → Bytes
uncut (w, none) = w
uncut (w, some f) = w ++ 46 ∷ f

uncut-cut : (v : Bytes) → uncut (cut v) ≡ v
uncut-cut [] = refl
uncut-cut (c ∷ v) = elim (Bool-cases (c == 46)) [
  | inl e ↦ rw e (ground arith)
  | inr e ↦ rw e (pull (cut v).1 (cut v).0 ∙ ap (λ u. c ∷ u) (uncut-cut v))
]
  where
    pull : (r : Option Bytes) (w : Bytes) → uncut (c ∷ w, r) ≡ c ∷ uncut (w, r)
    pull none w = refl
    pull (some f) w = refl

check_milli-same : (n m : ℕ) → check_milli n ≡ ok m → n ≡ m
unfolding check_milli
check_milli-same n m h = ground arith

with_fraction-guards :
    (n : ℕ) (f : Bytes) (m : ℕ)
    → with_fraction n (some f) ≡ ok m
    → (1 ≤ length f) × (length f ≤ 3) × (all_digits f ≡ true)
unfolding with_fraction
with_fraction-guards n f m h = ground arith

parse_parts-guards :
    (w : Bytes) (r : Option Bytes) (m : ℕ)
    → parse_parts w r ≡ ok m
    → (1 ≤ length w)
      × (length w ≤ 9)
      × (all_digits w ≡ true)
      × (with_fraction (digits_value 0 w) r ≡ ok m)
unfolding parse_parts
parse_parts-guards w r m h = ground arith

with_fraction_sound :
    (w : Bytes) (r : Option Bytes) (m : ℕ)
    → all_digits w ≡ true
    → 1 ≤ length w
    → length w ≤ 9
    → with_fraction (digits_value 0 w) r ≡ ok m
    → IsDecimal (uncut (w, r)) m × (1 ≤ m) × (m ≤ 999999999999)
unfolding with_fraction
with_fraction_sound w none m hw low high h =
    let value : digits_value 0 w * 1000 ≡ m = omega (arith, check_milli-same _ m h) in
    let (one, most) = check_milli-bounds _ m h in
    (subst (IsDecimal w) value (whole_number w hw low high), one, most)
with_fraction_sound w (some f) m hw low high h =
    let (flow, fhigh, hf) = with_fraction-guards _ f m h in
    let checked = sym (with_fraction-padded (digits_value 0 w) f hf flow fhigh) ∙ h in
    let (one, most) = check_milli-bounds _ m checked in
    (
      subst (IsDecimal (w ++ 46 ∷ f)) (check_milli-same _ m checked)
          (with_point w f hw low high hf flow fhigh),
      one,
      most,
    )

parse-accepts :
    (v : Bytes) (m : ℕ) → parse_milli_quantity v ≡ ok m → parse_parts (cut v).0 (cut v).1 ≡ ok m
unfolding parse_milli_quantity
parse-accepts v m h =
    go (length v == 0 || has_sign v || ltb 1 (count_points v)) (parse_parts (cut v).0 (cut v).1) h
  where
    go : (b : Bool) (x : Result ℕ) → (if b then err invalid_order_quantity else x) ≡ ok m → x ≡ ok m
    go true x h = cc
    go false x h = h

-- An accepted text is a decimal text, and the answer its value in thousandths, which is from 1 to
-- 999999999999.
pub parse_milli_quantity_sound :
    (v : Bytes) (m : ℕ)
    → parse_milli_quantity v ≡ ok m
    → IsDecimal v m × (1 ≤ m) × (m ≤ 999999999999)
parse_milli_quantity_sound v m h =
    let (low, high, hw, rest) = parse_parts-guards (cut v).0 (cut v).1 m (parse-accepts v m h) in
    subst (λ u. IsDecimal u m × (1 ≤ m) × (m ≤ 999999999999)) (uncut-cut v)
      (with_fraction_sound (cut v).0 (cut v).1 m hw low high rest)
