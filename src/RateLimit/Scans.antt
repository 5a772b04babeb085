-- ===== src/RateLimit/Scans.antt =====
-- How the scans of the table follow its writes.
use launlog_api.Prelude.{
  ◌+◌, ◌≤◌, Bool, true, false, ◌≡◌, some, List, [], ◌∷◌, length, find?, exists, select, update,
  eq_text, eq_text-eq, touched, map_option, or_else, find?-true, find?-update, find?-append,
  length-append, All, All-append, All-update, arith, refl, ap, ◌∙◌, Bool-cases, inl, inr,
}
use launlog_api.Prelude.Text.{Text}
use launlog_api.RateLimit.{RateEntry, Row, has_key, store}

module _ {ℓ} {A : Type ℓ} where
  -- A row that is found and kept is found among the kept rows.
  pub find?-select :
      (test keep : A → Bool) (xs : List A) {x : A}
      → find? test xs ≡ some x
      → keep x ≡ true
      → find? test (select keep xs) ≡ some x
  find?-select test keep [] found kept = cc
  find?-select test keep (y ∷ xs) {x} found kept = ground (arith, find?-select test keep xs {x = x})

  pub find?-exists :
      (test : A → Bool) (xs : List A) {x : A} → find? test xs ≡ some x → exists test xs ≡ true
  find?-exists test [] found = cc
  find?-exists test (y ∷ xs) {x} found = ground (arith, find?-exists test xs {x = x})

  pub select-length : (keep : A → Bool) (xs : List A) → length (select keep xs) ≤ length xs
  select-length keep [] = omega arith
  select-length keep (x ∷ xs) = ground (arith, select-length keep xs)

  pub update-length :
      (test : A → Bool) (change : A → A) (xs : List A) → length (update test change xs) ≡ length xs
  update-length test change [] = refl
  update-length test change (x ∷ xs) = omega (arith, update-length test change xs)

  pub All-select {κ} :
      (P : A → Type κ) (keep : A → Bool) (xs : List A) → All P xs → All P (select keep xs)
  All-select P keep [] h = tt
  All-select P keep (x ∷ xs) (px, hx) = elim (Bool-cases (keep x)) [
    | inl e ↦ rw e (px, All-select P keep xs hx)
    | inr e ↦ rw e (All-select P keep xs hx)
  ]

module _ (key : Text) (e : RateEntry) (rows : List Row) where
  -- A key that has a row has it changed.
  pub find?-store :
      {x : Row}
      → find? (has_key key) rows ≡ some x
      → find? (has_key key) (store key e rows) ≡ some (record x { entry = e })
  find?-store {x} found = rw (find?-exists (has_key key) rows found) (
      find?-update (has_key key) (has_key key) _ (λ y. refl) rows
      ∙ (ap (map_option (touched (has_key key) (λ y. record y { entry = e }))) found
          ∙ ap some (rw (find?-true (has_key key) rows found) refl)))

  -- Another key keeps its row.
  pub find?-store_other :
      (other : Text) {x : Row}
      → eq_text other key ≡ false
      → find? (has_key other) rows ≡ some x
      → find? (has_key other) (store key e rows) ≡ some x
  find?-store_other other {x} apart found = elim (Bool-cases (exists (has_key key) rows)) [
    | inl hit ↦ rw hit (
        find?-update (has_key other) (has_key key) _ (λ y. refl) rows
        ∙ (ap (map_option (touched (has_key key) (λ y. record y { entry = e }))) found
            ∙ ap some (rw missed refl)))
    | inr miss ↦ rw miss (
        find?-append (has_key other) rows _
        ∙ ap (λ r. or_else r (find? (has_key other) ((record { key = key; entry = e }) ∷ [])))
            found)
  ]
    where
      missed : has_key key x ≡ false
      missed =
          ap (λ k. eq_text k key) (eq_text-eq x.key other (find?-true (has_key other) rows found))
          ∙ apart

  pub store-length : exists (has_key key) rows ≡ true → length (store key e rows) ≡ length rows
  store-length hit = rw hit (update-length (has_key key) _ rows)

  pub store-length_le : length (store key e rows) ≤ length rows + 1
  store-length_le = elim (Bool-cases (exists (has_key key) rows)) [
    | inl hit ↦ omega (arith, store-length hit)
    | inr miss ↦
        rw miss (omega (arith, length-append rows ((record { key = key; entry = e }) ∷ [])))
  ]

  pub store-All :
      (P : RateEntry → Type 0)
      → P e
      → All (λ (x : Row). P x.entry) rows
      → All (λ (x : Row). P x.entry) (store key e rows)
  store-All P pe h = elim (Bool-cases (exists (has_key key) rows)) [
    | inl hit ↦ rw hit (All-update (λ (x : Row). P x.entry) (has_key key) _ (λ _ _. pe) rows h)
    | inr miss ↦ rw miss (All-append (λ (x : Row). P x.entry) rows _ h (pe, tt))
  ]
