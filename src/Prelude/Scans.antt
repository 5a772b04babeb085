-- ===== src/Prelude/Scans.antt =====
-- The laws of `find?` and `update`, the scans of a table.
use mathlib.Core.Path.{◌≡◌, refl}
use mathlib.Core.Bool.{Bool, true, false}
use mathlib.Core.List.{List, [], ◌∷◌, ◌++◌}
use mathlib.Core.Option.{Option, none, some}
use native.Mathlib.Omega.{arith}
use mathlib.Core.Logic.{◌⊎◌, inl, inr}
use launlog_api.Prelude.Tests.{if◌then◌else◌, Bool-cases}
use launlog_api.Prelude.Lists.{find?, update, exists, select, All}

module _ {ℓ} {A : Type ℓ} where
  -- The row at hand, changed if it passes the test.
  abbrev pub touched : (A → Bool) → (A → A) → A → A
  touched test change x = if test x then change x else x

  abbrev pub map_option : (A → A) → Option A → Option A
  map_option f none = none
  map_option f (some x) = some (f x)

  abbrev pub or_else : Option A → Option A → Option A
  or_else none o = o
  or_else (some x) o = some x

  pub find?-true : (test : A → Bool) (xs : List A) {x : A} → find? test xs ≡ some x → test x ≡ true
  find?-true test [] h = cc
  find?-true test (y ∷ xs) {x} h = ground (arith, find?-true test xs {x = x})

  pub find?-append :
      (test : A → Bool) (xs ys : List A)
      → find? test (xs ++ ys) ≡ or_else (find? test xs) (find? test ys)
  find?-append test [] ys = refl
  find?-append test (x ∷ xs) ys = ground (arith, find?-append test xs ys)

  -- An update that keeps what `key` tests changes the row that `key` finds, and finds no other.
  pub find?-update :
      (key test : A → Bool) (change : A → A)
      → ((x : A) → key (change x) ≡ key x)
      → (xs : List A)
      → find? key (update test change xs) ≡ map_option (touched test change) (find? key xs)
  find?-update key test change keep [] = refl
  find?-update key test change keep (x ∷ xs) =
      ground (arith, keep x, find?-update key test change keep xs)

  pub select-append :
      (test : A → Bool) (xs ys : List A) → select test (xs ++ ys) ≡ select test xs ++ select test ys
  select-append test [] ys = refl
  select-append test (x ∷ xs) ys = ground (arith, select-append test xs ys)

  pub exists-find? :
      (test : A → Bool) (xs : List A) → exists test xs ≡ true → (x : A) × (find? test xs ≡ some x)
  exists-find? test [] h = cc
  exists-find? test (x ∷ xs) h = elim (Bool-cases (test x)) [
    | inl hit ↦ (x, rw hit refl)
    | inr miss ↦ let (y, found) = exists-find? test xs (ground arith) in (y, rw miss found)
  ]

  -- No row passes a test that each of them fails.
  pub select-none :
      (test : A → Bool) (xs : List A) → All (λ x. test x ≡ false) xs → select test xs ≡ []
  select-none test [] h = refl
  select-none test (x ∷ xs) (px, hx) = rw px (select-none test xs hx)

  pub find?-none :
      (test : A → Bool) (xs : List A) → All (λ x. test x ≡ false) xs → find? test xs ≡ none
  find?-none test [] h = refl
  find?-none test (x ∷ xs) (px, hx) = rw px (find?-none test xs hx)

  -- A row found after one more is added was there, or is the one that was added.
  pub find?-added :
      (test : A → Bool) (xs : List A) (x : A) {y : A}
      → find? test (xs ++ x ∷ []) ≡ some y
      → (find? test xs ≡ some y) ⊎ ((test x ≡ true) × (y ≡ x))
  find?-added test [] x h = elim (Bool-cases (test x)) [
    | inl hit ↦ inr (hit, ground arith)
    | inr miss ↦ inl (ground arith)
  ]
  find?-added test (z ∷ xs) x {y} h = elim (Bool-cases (test z)) [
    | inl hit ↦ inl (ground arith)
    | inr miss ↦ elim (find?-added test xs x {y = y} (ground arith)) [
      | inl old ↦ inl (rw miss old)
      | inr new ↦ inr new
    ]
  ]
