-- ===== src/Query/Listing/Pages.antt =====
-- The sorted pages of a table.
use launlog_api.Prelude.{
  ℕ, zero, suc, ◌+◌, ◌-◌, ◌≡◌, Bool, List, [], ◌∷◌, length, take, drop, arith, refl, if◌then◌else◌,
  ltb, Bool-cases, inl, inr, map,
}
use launlog_api.Query.Payments.{page}
use launlog_api.Query.Listing.{insert_by, sort_by}

-- The smaller of two numbers.
abbrev pub smaller : ℕ → ℕ → ℕ
smaller a b = if ltb a b then a else b

module _ {ℓ} {A : Type ℓ} where
  insert_by-length :
      (precedes : A → A → Bool) (x : A) (ys : List A)
      → length (insert_by precedes x ys) ≡ length ys + 1
  insert_by-length precedes x [] = refl
  insert_by-length precedes x (y ∷ ys) = elim (Bool-cases (precedes x y)) [
    | inl e ↦ rw e (omega arith)
    | inr e ↦ rw e (omega (arith, insert_by-length precedes x ys))
  ]

  pub sort_by-length :
      (precedes : A → A → Bool) (xs : List A) → length (sort_by precedes xs) ≡ length xs
  sort_by-length precedes [] = refl
  sort_by-length precedes (x ∷ xs) =
      omega (arith, insert_by-length precedes x (sort_by precedes xs), sort_by-length precedes xs)

  take-length : (n : ℕ) (xs : List A) → length (take n xs) ≡ smaller n (length xs)
  take-length zero xs = ground arith
  take-length (suc n) [] = ground arith
  take-length (suc n) (x ∷ xs) = ground (arith, take-length n xs)

  drop-length : (n : ℕ) (xs : List A) → length (drop n xs) ≡ length xs - n
  drop-length zero xs = omega arith
  drop-length (suc n) [] = omega arith
  drop-length (suc n) (x ∷ xs) = omega (arith, drop-length n xs)

  pub page-length :
      (limit offset : ℕ) (xs : List A)
      → length (page limit offset xs) ≡ smaller limit (length xs - offset)
  page-length limit offset xs =
      ground (arith, take-length limit (drop offset xs), drop-length offset xs)

pub map-length {ℓ κ} :
    {A : Type ℓ} {B : Type κ} (f : A → B) (xs : List A) → length (map f xs) ≡ length xs
map-length f [] = refl
map-length f (x ∷ xs) = omega (arith, map-length f xs)
