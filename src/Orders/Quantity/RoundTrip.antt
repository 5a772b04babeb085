-- ===== src/Orders/Quantity/RoundTrip.antt =====
-- The quantity that an answer shows is read back as the quantity that was stored.
use launlog_api.Prelude.{
  ℕ, ◌+◌, ◌*◌, ◌/◌, ◌%◌, ◌≤◌, ◌≡◌, Bool, true, false, [], ◌∷◌, ◌++◌, ◌==◌, length, exists, arith,
  refl, sym, ap, ◌∙◌, subst, Bool-cases, inl, inr,
}
use launlog_api.Prelude.Int.{pos}
use launlog_api.Prelude.Text.{Bytes, trim_right, keep_rune}
use launlog_api.Prelude.Digits.{
  all_digits, digits_value, digits, padded, digits-value, padded-value, digits-all, padded-all,
  digits-length, digits-positive, padded-length,
}
use launlog_api.Effect.{ok}
use launlog_api.Orders.Quantity.{parse_milli_quantity, format_quantity, numeric_text}
use launlog_api.Orders.Quantity.Decimal.{IsDecimal, whole_number, with_point, scale}
use launlog_api.Orders.Quantity.Accepted.{parse_milli_quantity_complete}

-- What is left of a suffix keeps all that stands before it.
trim_right-keep :
    (test : ℕ → Bool) (w f : Bytes) {k : ℕ} {ks : Bytes}
    → trim_right test f ≡ k ∷ ks
    → trim_right test (w ++ f) ≡ w ++ k ∷ ks
trim_right-keep test [] f h = h
trim_right-keep test (c ∷ w) f {k} {ks} h =
    ap (keep_rune (test c) c) (trim_right-keep test w f h) ∙ kept (test c) w
  where
    kept : (b : Bool) (w : Bytes) → keep_rune b c (w ++ k ∷ ks) ≡ c ∷ (w ++ k ∷ ks)
    kept true [] = refl
    kept true (d ∷ w) = refl
    kept false [] = refl
    kept false (d ∷ w) = refl

-- A suffix that goes leaves what stands before it to be trimmed.
trim_right-gone :
    (test : ℕ → Bool) (w f : Bytes)
    → trim_right test f ≡ []
    → trim_right test (w ++ f) ≡ trim_right test w
trim_right-gone test [] f h = h
trim_right-gone test (c ∷ w) f h = ap (keep_rune (test c) c) (trim_right-gone test w f h)

-- Digits are no points.
trim_points-digits : (w : Bytes) → all_digits w ≡ true → trim_right (λ c. c == 46) w ≡ w
trim_points-digits [] h = refl
trim_points-digits (c ∷ w) h = ground (arith, trim_points-digits w)

exists-point : (w f : Bytes) → exists (λ c. c == 46) (w ++ 46 ∷ f) ≡ true
exists-point [] f = refl
exists-point (c ∷ w) f = ground (arith, exists-point w f)

abbrev no_zeros : Bytes → Bytes
no_zeros = trim_right (λ c. c == 48)

-- A fraction of zeros goes with its point.
format-whole :
    (w f : Bytes)
    → all_digits w ≡ true
    → no_zeros (46 ∷ f) ≡ 46 ∷ []
    → format_quantity (w ++ 46 ∷ f) ≡ w
unfolding format_quantity
format-whole w f hw h =
    rw (exists-point w f, trim_right-keep (λ c. c == 48) w (46 ∷ f) h)
      (trim_right-gone (λ c. c == 46) w (46 ∷ []) refl ∙ trim_points-digits w hw)

-- Of any other fraction the zeros behind its last digit go.
format-point :
    (w f : Bytes) (d : ℕ) (t : Bytes)
    → all_digits (d ∷ t) ≡ true
    → no_zeros (46 ∷ f) ≡ 46 ∷ d ∷ t
    → format_quantity (w ++ 46 ∷ f) ≡ w ++ 46 ∷ d ∷ t
unfolding format_quantity
format-point w f d t ht h =
    rw (exists-point w f, trim_right-keep (λ c. c == 48) w (46 ∷ f) h)
      (trim_right-keep (λ c. c == 46) w (46 ∷ d ∷ t)
        (ap (keep_rune true 46) (trim_points-digits (d ∷ t) ht)))

module _ (w : Bytes) (hw : all_digits w ≡ true) (low : 1 ≤ length w) (high : length w ≤ 9) where
  whole_case :
      (f : Bytes)
      → no_zeros (46 ∷ f) ≡ 46 ∷ []
      → digits_value 0 f ≡ 0
      → IsDecimal (format_quantity (w ++ 46 ∷ f)) (digits_value 0 w * 1000 + digits_value 0 f)
  whole_case f h zero_f =
      subst (IsDecimal (format_quantity (w ++ 46 ∷ f))) (omega (arith, zero_f)) (
        subst (λ u. IsDecimal u (digits_value 0 w * 1000)) (sym (format-whole w f hw h))
          (whole_number w hw low high))

  point_case :
      (f : Bytes) (d : ℕ) (t : Bytes)
      → no_zeros (46 ∷ f) ≡ 46 ∷ d ∷ t
      → all_digits (d ∷ t) ≡ true
      → length (d ∷ t) ≤ 3
      → digits_value 0 (d ∷ t) * scale (length (d ∷ t)) ≡ digits_value 0 f
      → IsDecimal (format_quantity (w ++ 46 ∷ f)) (digits_value 0 w * 1000 + digits_value 0 f)
  point_case f d t h ht short same =
      subst (IsDecimal (format_quantity (w ++ 46 ∷ f))) (ap (λ v. digits_value 0 w * 1000 + v) same)
        (subst
          (λ u.
            IsDecimal u (digits_value 0 w * 1000 + digits_value 0 (d ∷ t) * scale (length (d ∷ t))))
          (sym (format-point w f d t ht h))
          (with_point w (d ∷ t) hw low high ht (omega arith) short))

  format_three :
      (a b c : ℕ)
      → all_digits (a ∷ b ∷ c ∷ []) ≡ true
      → IsDecimal
          (format_quantity (w ++ 46 ∷ a ∷ b ∷ c ∷ []))
          (digits_value 0 w * 1000 + digits_value 0 (a ∷ b ∷ c ∷ []))
  format_three a b c h = elim (Bool-cases (c == 48)) [
    | inr nc ↦ point_case _ a (b ∷ c ∷ []) (rw nc refl) h (omega arith) (omega arith)
    | inl zc ↦ elim (Bool-cases (b == 48)) [
      | inr nb ↦
          point_case _ a (b ∷ []) (rw (zc, nb) refl) (ground arith) (omega arith) (ground arith)
      | inl zb ↦ elim (Bool-cases (a == 48)) [
        | inr na ↦
            point_case _ a [] (rw (zc, zb, na) refl) (ground arith) (omega arith) (ground arith)
        | inl za ↦ whole_case _ (rw (zc, zb, za) refl) (ground arith)
      ]
    ]
  ]

  format_fraction :
      (f : Bytes)
      → length f ≡ 3
      → all_digits f ≡ true
      → IsDecimal (format_quantity (w ++ 46 ∷ f)) (digits_value 0 w * 1000 + digits_value 0 f)
  format_fraction [] e h = absurd (omega arith)
  format_fraction (a ∷ []) e h = absurd (omega arith)
  format_fraction (a ∷ b ∷ []) e h = absurd (omega arith)
  format_fraction (a ∷ b ∷ c ∷ []) e h = format_three a b c h
  format_fraction (a ∷ b ∷ c ∷ d ∷ f) e h = absurd (omega arith)

-- A stored quantity from 1 to 999999999999 thousandths, as PostgreSQL prints it and as
-- `FormatQuantity` shows it, is accepted by `parseMilliQuantity` as the same quantity.
pub parse_milli_quantity-format_quantity :
    (n : ℕ)
    → 1 ≤ n
    → n ≤ 999999999999
    → parse_milli_quantity (format_quantity (numeric_text (pos n))) ≡ ok n
parse_milli_quantity-format_quantity n low high =
    parse_milli_quantity_complete _ n
      (subst (IsDecimal (format_quantity (numeric_text (pos n))))
        (omega (arith, digits-value (n / 1000), padded-value 3 (n % 1000)))
        (format_fraction (digits (n / 1000)) (digits-all (n / 1000)) (digits-positive (n / 1000))
          (digits-length (n / 1000) 8 (omega arith)) (padded 3 (n % 1000))
          (padded-length (n % 1000) 2 (omega arith)) (padded-all 3 (n % 1000))))
      low high
