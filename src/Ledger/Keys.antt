-- ===== src/Ledger/Keys.antt =====
-- Updates of `orders` that leave the keys alone.
use launlog_api.Prelude.{
  ℕ, Bool, ◌≡◌, some, List, [], ◌∷◌, find?, update, refl, touched, map_option, find?-update,
  Bool-cases, inl, inr, Option-cases,
}
use launlog_api.Store.{Order}
use launlog_api.Query.Lifecycle.{is_order}
use launlog_api.Ledger.{IsUnique}

-- `change` keeps the primary key of an order.
pub record KeepsKey (change : Order → Order) : Type 0 where
  pub same_business : (o : Order) → (change o).business_id ≡ o.business_id
  pub same_id : (o : Order) → (change o).id ≡ o.id

module _ (test : Order → Bool) (change : Order → Order) (keep : KeepsKey change) where
  is_order_kept : (b i : ℕ) (o : Order) → is_order b i (change o) ≡ is_order b i o
  is_order_kept b i o = rw (keep.same_business o, keep.same_id o)

  pub find?-update_order :
      (b i : ℕ) (os : List Order)
      → find? (is_order b i) (update test change os)
        ≡ map_option (touched test change) (find? (is_order b i) os)
  find?-update_order b i os = find?-update (is_order b i) test change (is_order_kept b i) os

  touched_keys :
      (o : Order)
      → ((touched test change o).business_id ≡ o.business_id) × ((touched test change o).id ≡ o.id)
  touched_keys o = elim (Bool-cases (test o)) [
    | inl e ↦ rw e (keep.same_business o, keep.same_id o)
    | inr e ↦ rw e (refl, refl)
  ]

  pub IsUnique-update : (os : List Order) → IsUnique os → IsUnique (update test change os)
  IsUnique-update [] u = tt
  IsUnique-update (o ∷ os) u =
      let (eb, ei) = touched_keys o in
      (rw (eb, ei, find?-update_order o.business_id o.id os, u.0) refl, IsUnique-update os u.1)

  -- A row found after the update was found before it, and was changed if it passed the test.
  pub find?-before :
      (b i : ℕ) (os : List Order) {o' : Order}
      → find? (is_order b i) (update test change os) ≡ some o'
      → (o : Order) × (find? (is_order b i) os ≡ some o) × (o' ≡ touched test change o)
  find?-before b i os {o'} h = elim (Option-cases (find? (is_order b i) os)) [
    | inl e ↦ cc (h, find?-update_order b i os, e)
    | inr (o, e) ↦ (o, e, cc (h, find?-update_order b i os, e))
  ]
