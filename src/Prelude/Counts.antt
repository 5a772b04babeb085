-- ===== src/Prelude/Counts.antt =====
-- How many rows of a table pass a test, and tables whose rows have ids of their own.
use Prim.Native.Nat.{ℕ, ◌≤◌, ◌<◌}
use mathlib.Core.Path.{◌≡◌, refl, sym, ap, ◌∙◌}
use mathlib.Core.Logic.{◌≢◌, inl, inr}
use mathlib.Core.Bool.{Bool, true, false, ◌||◌}
use mathlib.Core.List.{List, [], ◌∷◌, ◌++◌}
use mathlib.Core.Option.{some}
use native.Mathlib.Omega.{arith}
use launlog_api.Prelude.Tests.{Bool-cases, if◌then◌else◌}
use launlog_api.Prelude.Lists.{length, select, find?, update, exists, All, All-weaken, All-find?}

length_zero {ℓ} : {A : Type ℓ} (xs : List A) → length xs ≤ 0 → xs ≡ []
length_zero [] h = refl
length_zero (x ∷ xs) h = absurd (omega (arith, h))

pub update-append {ℓ} :
    {A : Type ℓ} (test : A → Bool) (change : A → A) (xs ys : List A)
    → update test change (xs ++ ys) ≡ update test change xs ++ update test change ys
update-append test change [] ys = refl
update-append test change (x ∷ xs) ys =
    ap (λ r. (if test x then change x else x) ∷ r) (update-append test change xs ys)

module _ {ℓ} {A : Type ℓ} (live test : A → Bool) (change : A → A) where
  -- An update whose changed rows fail a test leaves no more rows that pass it.
  pub length-update_le :
      ((x : A) → live (change x) ≡ false)
      → (xs : List A) → length (select live (update test change xs)) ≤ length (select live xs)
  length-update_le kills [] = omega arith
  length-update_le kills (x ∷ xs) =
      let rest = length-update_le kills xs in let dead = kills x in ground arith

  -- It leaves fewer when it changes a row that passed.
  pub length-update_lt :
      ((x : A) → live (change x) ≡ false)
      → (key : A → Bool) (xs : List A) {x : A} → find? key xs ≡ some x
      → live x ≡ true
      → test x ≡ true
      → length (select live (update test change xs)) < length (select live xs)
  length-update_lt kills key [] found alive hit = cc
  length-update_lt kills key (y ∷ xs) {x} found alive hit =
      let dead = kills y in
      let rest = length-update_le kills xs in
      elim (Bool-cases (key y)) [
        | inl here ↦ ground arith
        | inr there ↦
            let fewer = length-update_lt kills key xs {x = x} (ground arith) alive hit in
            ground arith
      ]

  -- It leaves none when it changes the only one.
  pub select-update_last :
      ((x : A) → live (change x) ≡ false)
      → (key : A → Bool) (xs : List A) {x : A} → find? key xs ≡ some x
      → live x ≡ true
      → test x ≡ true
      → length (select live xs) ≤ 1
      → select live (update test change xs) ≡ []
  select-update_last kills key xs {x} found alive hit one =
      let fewer = length-update_lt kills key xs {x = x} found alive hit in
      length_zero _ (omega (arith, fewer, one))

  -- Rows that an update leaves alone are selected as before.
  pub select-update :
      ((x : A) → live (change x) ≡ false)
      → (xs : List A) → All (λ x. live x ≡ true → test x ≡ false) xs
      → select live (update test change xs) ≡ select live xs
  select-update kills [] h = refl
  select-update kills (x ∷ xs) (hx, h) =
      let dead = kills x in let rest = select-update kills xs h in ground arith

  -- No row passes once each that did is changed.
  pub exists-update :
      ((x : A) → live (change x) ≡ false)
      → (xs : List A) → All (λ x. live x ≡ true → test x ≡ true) xs
      → exists live (update test change xs) ≡ false
  exists-update kills [] h = refl
  exists-update kills (x ∷ xs) (hx, h) =
      let dead = kills x in let rest = exists-update kills xs h in ground arith

  -- What no row passes, no row passes afterwards.
  pub exists-update_none :
      ((x : A) → live (change x) ≡ false)
      → (xs : List A) → exists live xs ≡ false
      → exists live (update test change xs) ≡ false
  exists-update_none kills [] h = refl
  exists-update_none kills (x ∷ xs) h =
      let dead = kills x in let rest = exists-update_none kills xs (ground arith) in ground arith

  pub exists-update_same :
      ((x : A) → live (change x) ≡ false)
      → (xs : List A) → All (λ x. live x ≡ true → test x ≡ false) xs
      → exists live (update test change xs) ≡ exists live xs
  exists-update_same kills [] h = refl
  exists-update_same kills (x ∷ xs) (hx, h) =
      let dead = kills x in let rest = exists-update_same kills xs h in ground arith

module _ {ℓ} {A : Type ℓ} (test : A → Bool) where
  pub exists-append : (xs ys : List A) → exists test (xs ++ ys) ≡ (exists test xs || exists test ys)
  exists-append [] ys = refl
  exists-append (x ∷ xs) ys = ground (arith, exists-append xs ys)

  -- A row that fails the test is not seen among those that were there.
  pub select-added :
      (xs : List A) (x : A) → test x ≡ false → select test (xs ++ x ∷ []) ≡ select test xs
  select-added [] x h = rw h refl
  select-added (y ∷ xs) x h = ground (arith, select-added xs x h)

  pub exists-added :
      (xs : List A) (x : A) → test x ≡ false → exists test (xs ++ x ∷ []) ≡ exists test xs
  exists-added [] x h = rw h refl
  exists-added (y ∷ xs) x h = ground (arith, exists-added xs x h)

  -- A row that a scan finds is there for any test that it passes.
  pub exists-found :
      (key : A → Bool) (xs : List A) {x : A}
      → find? key xs ≡ some x
      → test x ≡ true
      → exists test xs ≡ true
  exists-found key [] found h = cc
  exists-found key (y ∷ xs) {x} found h = elim (Bool-cases (key y)) [
    | inl here ↦ ground arith
    | inr there ↦ let rest = exists-found key xs {x = x} (ground arith) h in ground arith
  ]

  -- A selection of no more than one row is the row that a scan finds, if that passes.
  pub select-found :
      (key : A → Bool) (xs : List A) {x : A}
      → find? key xs ≡ some x
      → test x ≡ true
      → length (select test xs) ≤ 1
      → select test xs ≡ x ∷ []
  select-found key [] found h one = cc
  select-found key (y ∷ xs) {x} found h one = elim (Bool-cases (key y)) [
    | inl here ↦
        let same : y ≡ x = ground arith in
        let hit : test y ≡ true = ap test same ∙ h in
        let rest : select test xs ≡ [] = length_zero _ (ground (arith, hit, one)) in
        rw (hit, rest, same) refl
    | inr there ↦
        let rest = select-found key xs {x = x} (ground arith) h (ground arith) in ground arith
  ]

  pub exists-none : (xs : List A) → All (λ x. test x ≡ false) xs → exists test xs ≡ false
  exists-none [] h = refl
  exists-none (x ∷ xs) (px, hx) = ground (arith, exists-none xs hx)

module _ {ℓ} {A : Type ℓ} (id_of : A → ℕ) where
  -- No two rows have one id.
  abbrev pub Distinct : List A → Type ℓ
  Distinct [] = Unit
  Distinct (x ∷ xs) = All (λ y. id_of y ≢ id_of x) xs × Distinct xs

  pub Distinct-added :
      (xs : List A) (x : A)
      → All (λ y. id_of y < id_of x) xs
      → Distinct xs
      → Distinct (xs ++ x ∷ [])
  Distinct-added [] x below d = (tt, tt)
  Distinct-added (y ∷ xs) x below d =
      (others xs (λ h. omega (arith, below.0, h)) d.0, Distinct-added xs x below.1 d.1)
    where
      others :
          (ys : List A)
          → (id_of x ≢ id_of y)
          → All (λ z. id_of z ≢ id_of y) ys
          → All (λ z. id_of z ≢ id_of y) (ys ++ x ∷ [])
      others [] apart h = (apart, tt)
      others (z ∷ zs) apart h = (h.0, others zs apart h.1)

  pub Distinct-update :
      (test : A → Bool) (change : A → A)
      → ((x : A) → id_of (change x) ≡ id_of x)
      → (xs : List A) → Distinct xs
      → Distinct (update test change xs)
  Distinct-update test change keep [] d = tt
  Distinct-update test change keep (x ∷ xs) d = elim (Bool-cases (test x)) [
    | inl hit ↦ rw (hit, keep x) (others xs d.0, Distinct-update test change keep xs d.1)
    | inr miss ↦ rw miss (others xs d.0, Distinct-update test change keep xs d.1)
  ]
    where
      others :
          (ys : List A)
          → All (λ y. id_of y ≢ id_of x) ys
          → All (λ y. id_of y ≢ id_of x) (update test change ys)
      others [] h = tt
      others (y ∷ ys) h = elim (Bool-cases (test y)) [
        | inl hit ↦ rw (hit, keep y) (h.0, others ys h.1)
        | inr miss ↦ rw miss (h.0, others ys h.1)
      ]

  -- The row that a scan finds is the only one with its id.
  pub Distinct-found :
      (key : A → Bool) (xs : List A) {x : A}
      → Distinct xs
      → find? key xs ≡ some x
      → All (λ y. id_of y ≡ id_of x → y ≡ x) xs
  Distinct-found key [] d found = tt
  Distinct-found key (y ∷ xs) {x} d found = elim (Bool-cases (key y)) [
    | inl here ↦
        let same : y ≡ x = ground arith in
        let apart = ap id_of same in
        (λ _. same, All-weaken (λ z ne e. absurd (omega (arith, ne, e, apart))) xs d.0)
    | inr there ↦
        let found : find? key xs ≡ some x = ground arith in
        (
          λ e. absurd (All-find? (λ z. id_of z ≢ id_of y) key xs d.0 found (sym e)),
          Distinct-found key xs d.1 found,
        )
  ]
