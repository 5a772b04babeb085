-- ===== src/Prelude/Lists.antt =====
-- Lists measured by native numbers, and the scans of a table that SQL queries make.
use Prim.Native.Nat.{ℕ, zero, suc, ◌+◌}
use mathlib.Core.Path.{◌≡◌, refl, subst}
use mathlib.Core.Logic.{inl, inr}
use mathlib.Core.Bool.{Bool, true, false, ◌&&◌, ◌||◌}
use mathlib.Core.List.{List, [], ◌∷◌, ◌++◌}
use mathlib.Core.Option.{Option, none, some}
use native.Mathlib.Omega.{arith}
use launlog_api.Prelude.Tests.{◌==◌, if◌then◌else◌, Bool-cases}

module _ {ℓ} {A : Type ℓ} where
  abbrev pub length : List A → ℕ
  length [] = 0
  length (x ∷ xs) = suc (length xs)

  abbrev pub take : ℕ → List A → List A
  take zero xs = []
  take (suc n) [] = []
  take (suc n) (x ∷ xs) = x ∷ take n xs

  abbrev pub drop : ℕ → List A → List A
  drop zero xs = xs
  drop (suc n) [] = []
  drop (suc n) (x ∷ xs) = drop n xs

  abbrev pub replicate : ℕ → A → List A
  replicate zero a = []
  replicate (suc n) a = a ∷ replicate n a

  -- `WHERE test`, all rows.
  abbrev pub select : (A → Bool) → List A → List A
  select test [] = []
  select test (x ∷ xs) = let rest = select test xs in if test x then x ∷ rest else rest

  -- `WHERE test`, the first row, as a `:one` query scans it.
  abbrev pub find? : (A → Bool) → List A → Option A
  find? test [] = none
  find? test (x ∷ xs) = if test x then some x else find? test xs

  -- `EXISTS (SELECT 1 … WHERE test)`.
  abbrev pub exists : (A → Bool) → List A → Bool
  exists test [] = false
  exists test (x ∷ xs) = test x || exists test xs

  -- `UPDATE … SET change WHERE test`.
  abbrev pub update : (A → Bool) → (A → A) → List A → List A
  update test change [] = []
  update test change (x ∷ xs) = (if test x then change x else x) ∷ update test change xs

  pub length-append : (xs ys : List A) → length (xs ++ ys) ≡ length xs + length ys
  length-append [] ys = omega arith
  length-append (x ∷ xs) ys = omega (arith, length-append xs ys)

module _ {ℓ κ} {A : Type ℓ} (P : A → Type κ) where
  abbrev pub All : List A → Type κ
  All [] = Unit
  All (x ∷ xs) = P x × All xs

  pub All-append : (xs ys : List A) → All xs → All ys → All (xs ++ ys)
  All-append [] ys _ hy = hy
  All-append (x ∷ xs) ys (px, hx) hy = (px, All-append xs ys hx hy)

  pub All-update :
      (test : A → Bool) (change : A → A)
      → ((x : A) → P x → P (change x))
      → (xs : List A) → All xs
      → All (update test change xs)
  All-update test change keep [] h = tt
  All-update test change keep (x ∷ xs) (px, hx) = elim (Bool-cases (test x)) [
    | inl e ↦ rw e (keep x px, All-update test change keep xs hx)
    | inr e ↦ rw e (px, All-update test change keep xs hx)
  ]

  pub All-find? : (test : A → Bool) (xs : List A) {a : A} → All xs → find? test xs ≡ some a → P a
  All-find? test [] h e = cc
  All-find? test (x ∷ xs) {a} h e = elim (Bool-cases (test x)) [
    | inl hit ↦ subst P (ground arith) h.0
    | inr miss ↦ All-find? test xs h.1 (ground arith)
  ]

module _ {ℓ κ κ'} {A : Type ℓ} {P : A → Type κ} {Q : A → Type κ'} where
  pub All-weaken : ((x : A) → P x → Q x) → (xs : List A) → All P xs → All Q xs
  All-weaken w [] h = tt
  All-weaken w (x ∷ xs) (px, hx) = (w x px, All-weaken w xs hx)

-- Equality of texts and of byte strings, both lists of numbers.
abbrev pub eq_text : List ℕ → List ℕ → Bool
eq_text [] [] = true
eq_text (x ∷ xs) (y ∷ ys) = (x == y) && eq_text xs ys
eq_text _ _ = false

pub eq_text-eq : (xs ys : List ℕ) → eq_text xs ys ≡ true → xs ≡ ys
eq_text-eq [] [] h = refl
eq_text-eq [] (y ∷ ys) h = cc
eq_text-eq (x ∷ xs) [] h = cc
eq_text-eq (x ∷ xs) (y ∷ ys) h = ground (arith, eq_text-eq xs ys)

pub eq_text_refl : (xs : List ℕ) → eq_text xs xs ≡ true
eq_text_refl [] = refl
eq_text_refl (x ∷ xs) = ground (arith, eq_text_refl xs)

-- Two lists of one length whose elements are related place by place.
pub data Pairs {ℓ κ ι} {A : Type ℓ} {B : Type κ} (R : A → B → Type ι)
    : List A → List B → Type (ℓ ⊔ κ ⊔ ι) where
  no_pairs : Pairs R [] []
  next_pair :
      {x : A} {y : B} {xs : List A} {ys : List B}
      → R x y
      → Pairs R xs ys
      → Pairs R (x ∷ xs) (y ∷ ys)
