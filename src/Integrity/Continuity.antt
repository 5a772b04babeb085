-- ===== src/Integrity/Continuity.antt =====
-- What a request may do to an order that is there already.
use mathlib.Core.Path.{subst₂}
use mathlib.Core.Option.{some-injective}
use launlog_api.Prelude.{
  ℕ, Bool, true, ◌≡◌, ◌⊎◌, inl, inr, some, [], ◌∷◌, ◌++◌, update, find?, find?-append, touched,
  map_option, find?-true, Bool-cases, refl, sym, ap, ◌∙◌, or_else,
}
use launlog_api.Store.{Db, Order, OrderStatus, PaymentStatus, is_completed, is_cancelled}
use launlog_api.Query.Lifecycle.{is_order}
use launlog_api.Orders.Status.{allowed_order_transition}
use launlog_api.Ledger.Keys.{KeepsKey, find?-update_order}
use launlog_api.Ledger.Settle.{is_order_at, with_payment_status}
use launlog_api.Timeline.Changes.{allowed_from_open}
use launlog_api.Ledger.Totals.{is_order_key}

-- A status leads to another by allowed transitions, or is the same.
pub data Advances : OrderStatus → OrderStatus → Type 0 where
  stays : (s : OrderStatus) → Advances s s
  advances :
      (s t u : OrderStatus) → Advances s t → allowed_order_transition t u ≡ true → Advances s u

pub Advances-trans : (s t u : OrderStatus) → Advances s t → Advances t u → Advances s u
Advances-trans s t u a (stays _) = a
Advances-trans s t u a (advances _ v _ b step) = advances s v u (Advances-trans s t v a b) step

-- The same order later on: its bill and its number are what they were, and its status follows.
pub record Continues (o o' : Order) : Type 0 where
  pub same_total : o'.total_amount ≡ o.total_amount
  pub same_invoice : o'.invoice_number ≡ o.invoice_number
  pub same_customer : o'.customer_id ≡ o.customer_id
  pub follows : Advances o.status o'.status

pub Continues-refl : (o : Order) → Continues o o
Continues-refl o = record {
  same_total = refl;
  same_invoice = refl;
  same_customer = refl;
  follows = stays o.status;
}

pub Continues-trans : (o p q : Order) → Continues o p → Continues p q → Continues o q
Continues-trans o p q a b = record {
  same_total = b.same_total ∙ a.same_total;
  same_invoice = b.same_invoice ∙ a.same_invoice;
  same_customer = b.same_customer ∙ a.same_customer;
  follows = Advances-trans o.status p.status q.status a.follows b.follows;
}

-- Every order of some tables continues in others.
pub record AllContinue (db d : Db) : Type 0 where
  pub at :
      (b i : ℕ) (o : Order)
      → find? (is_order b i) db.orders ≡ some o
      → (o' : Order) × (find? (is_order b i) d.orders ≡ some o') × Continues o o'

pub AllContinue-refl : (db : Db) → AllContinue db db
AllContinue-refl db = record { at = λ b i o found. (o, found, Continues-refl o) }

pub AllContinue-trans : (db c d : Db) → AllContinue db c → AllContinue c d → AllContinue db d
AllContinue-trans db c d first then = record {
  at = λ b i o found.
      let (p, found_p, o_p) = first.at b i o found in
      let (q, found_q, p_q) = then.at b i p found_p in (q, found_q, Continues-trans o p q o_p p_q);
}

-- One more order takes none away.
pub AllContinue-added : (db d : Db) (o : Order) → d.orders ≡ db.orders ++ o ∷ [] → AllContinue db d
AllContinue-added db d o same = record {
  at = λ b i x found. (
    x,
    ap (find? (is_order b i)) same
        ∙ (find?-append (is_order b i) db.orders (o ∷ [])
            ∙ ap (λ r. or_else r (find? (is_order b i) (o ∷ []))) found),
    Continues-refl x,
  );
}

module _ (db d : Db) (test : Order → Bool) (change : Order → Order) (keep : KeepsKey change)
    (same : d.orders ≡ update test change db.orders) where
  -- An update continues the orders if it continues those that it changes.
  pub AllContinue-updated :
      ((b i : ℕ) (o : Order)
        → find? (is_order b i) db.orders ≡ some o
        → test o ≡ true
        → Continues o (change o))
      → AllContinue db d
  AllContinue-updated h = record {
    at = λ b i o found. (
      touched test change o,
      ap (find? (is_order b i)) same
          ∙ (find?-update_order test change keep b i db.orders
              ∙ ap (map_option (touched test change)) found),
      elim (Bool-cases (test o)) [
        | inl hit ↦ rw hit (h b i o found hit)
        | inr miss ↦ rw miss (Continues-refl o)
      ],
    );
  }

pub AllContinue-settled :
    (db d : Db) (b t i now : ℕ) (status : PaymentStatus)
    → d.orders ≡ update (is_order_at b t i) (with_payment_status status now) db.orders
    → AllContinue db d
AllContinue-settled db d b t i now status same =
    AllContinue-updated db d (is_order_at b t i) (with_payment_status status now)
      (record { same_business = λ o. refl; same_id = λ o. refl }) same
      λ _ _ o _ _. record {
        same_total = refl;
        same_invoice = refl;
        same_customer = refl;
        follows = stays o.status;
      }

-- A step of the order that the key finds.
pub AllContinue-stepped :
    (db d : Db) (b i : ℕ) (change : Order → Order) (to_status : OrderStatus) (before : Order)
    → KeepsKey change
    → find? (is_order b i) db.orders ≡ some before
    → allowed_order_transition before.status to_status ≡ true
    → ((o : Order)
        → ((change o).total_amount ≡ o.total_amount)
          × ((change o).invoice_number ≡ o.invoice_number)
          × ((change o).customer_id ≡ o.customer_id)
          × ((change o).status ≡ to_status))
    → d.orders ≡ update (is_order b i) change db.orders
    → AllContinue db d
AllContinue-stepped db d b i change to_status before keep at allowed keeps same =
    AllContinue-updated db d (is_order b i) change keep same λ b' i' o found hit.
      let (total, invoice, customer, status) = keeps o in
      let (hb, hi) = is_order_key b i o hit in
      let (fb, fi) = is_order_key b' i' o (find?-true (is_order b' i') db.orders found) in
      let is_before : before ≡ o =
        some-injective _ _ (
          sym at ∙ (λ j. find? (is_order ((sym hb ∙ fb) j) ((sym hi ∙ fi) j)) db.orders) ∙ found) in
      record {
        same_total = total;
        same_invoice = invoice;
        same_customer = customer;
        follows = advances o.status o.status _ (stays o.status) (
            subst₂ (λ (x : Order) s. allowed_order_transition x.status s ≡ true) is_before
              (sym status) allowed);
      }

-- An order that is completed or cancelled stays as it is.
pub Advances-closed :
    (s t : OrderStatus) → Advances s t → (is_completed s ≡ true) ⊎ (is_cancelled s ≡ true) → t ≡ s
Advances-closed s t (stays _) closed = refl
Advances-closed s t (advances _ u _ a step) closed =
    let same = Advances-closed s u a closed in
    let (alive, unfinished) = allowed_from_open u t step in
    elim closed [ inl done ↦ cc | inr done ↦ cc ]
