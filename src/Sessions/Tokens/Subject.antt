-- ===== src/Sessions/Tokens/Subject.antt =====
-- The subject of an access token is the id of its user.
use launlog_api.Prelude.{
  ℕ, ◌^◌, ◌<◌, ◌≤◌, true, false, some, [], ◌∷◌, ◌≡◌, refl, ap, ◌∙◌, ◌==◌, length, arith,
}
use launlog_api.Prelude.Int.{pos}
use launlog_api.Prelude.Text.{Text, is_empty}
use launlog_api.Prelude.Digits.{
  digits, digits_value, all_digits, digits-value, digits-all, digits-positive,
}
use launlog_api.Sessions.{AccessClaims}
use launlog_api.Sessions.Tokens.{parse_int64, parse_magnitude, positive_id, subject_id}

parse_magnitude-digits :
    (bound : ℕ) (c : ℕ) (cs : Text)
    → all_digits (c ∷ cs) ≡ true
    → digits_value 0 (c ∷ cs) < bound
    → parse_magnitude bound (c ∷ cs) ≡ some (digits_value 0 (c ∷ cs))
parse_magnitude-digits bound c cs all low = ground (arith, all, low)

parse_int64-digits :
    (cs : Text)
    → all_digits cs ≡ true
    → 1 ≤ length cs
    → digits_value 0 cs < 2 ^ 63
    → parse_int64 cs ≡ some (pos (digits_value 0 cs))
unfolding parse_int64
parse_int64-digits [] all long low = absurd (omega arith)
parse_int64-digits (c ∷ cs) all long low =
    let no_minus : (c == 45) ≡ false = ground arith in
    let no_plus : (c == 43) ≡ false = ground arith in
    rw (no_minus, no_plus, parse_magnitude-digits (2 ^ 63) c cs all low) refl

is_empty-digits : (cs : Text) → 1 ≤ length cs → is_empty cs ≡ false
is_empty-digits [] h = absurd (omega arith)
is_empty-digits (c ∷ cs) h = refl

pub subject-is_empty : (n : ℕ) → is_empty (digits n) ≡ false
subject-is_empty n = is_empty-digits (digits n) (digits-positive n)

-- The subject that a token is issued with names its user.
pub subject_id-digits :
    (claims : AccessClaims) (n : ℕ)
    → claims.subject ≡ digits n
    → 1 ≤ n
    → n < 2 ^ 63
    → subject_id claims ≡ some n
unfolding subject_id
subject_id-digits claims n same low high =
    let value = digits-value n in
    let parsed =
      parse_int64-digits (digits n) (digits-all n) (digits-positive n)
        (omega (arith, value, high)) in
    ap (λ s. positive_id (parse_int64 s)) same
    ∙ (ap positive_id parsed ∙ (ap (λ m. positive_id (some (pos m))) value ∙ ground (arith, low)))
