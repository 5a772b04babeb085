-- ===== src/Orders/Creation/Numbers.antt =====
-- Invoice numbers: the counters of the days, and the texts.
use launlog_api.Prelude.{
  ℕ, ◌+◌, ◌<◌, Bool, true, false, ◌&&◌, ◌≡◌, inl, inr, Option, none, some, List, [], ◌∷◌, ◌++◌,
  ◌==◌, find?, find?-append, find?-update, touched, map_option, length, arith, refl, sym, ap, ◌∙◌,
  Bool-cases, find?-true, or_else, drop,
}
use launlog_api.Prelude.Text.{Text}
use launlog_api.Prelude.Digits.{padded, padded-value, padded-length, digits_value}
use launlog_api.Store.{Db, InvoiceCounter}
use launlog_api.Effect.{Env}
use launlog_api.Query.Creation.{allocate_invoice_number, is_counter, number_after, count_up}
use launlog_api.Orders.Creation.{invoice_number_of}

-- The next number of a day at an outlet.
abbrev pub next_number : ℕ → ℕ → ℕ → List InvoiceCounter → ℕ
next_number b t date cs = number_after (find? (is_counter b t date) cs)

abbrev pub same_day : ℕ → ℕ → ℕ → ℕ → ℕ → ℕ → Bool
same_day b t date b' t' date' = b == b' && (t == t' && date == date')

-- The numbers of one day that one allocation takes of another.
abbrev pub taken : Bool → ℕ
taken true = 1
taken false = 0

counter_key :
    (b t date : ℕ) (c : InvoiceCounter)
    → is_counter b t date c ≡ true
    → (c.business_id ≡ b) × (c.outlet_id ≡ t) × (c.counter_date ≡ date)
counter_key b t date c h = ground arith

same_day_keys :
    (b t date b' t' date' : ℕ)
    → same_day b t date b' t' date' ≡ true
    → (b ≡ b') × (t ≡ t') × (date ≡ date')
same_day_keys b t date b' t' date' h = ground arith

module _ (b t date b' t' date' : ℕ) (cs : List InvoiceCounter) where
  abbrev Counted : Bool → Option InvoiceCounter → Type 0
  Counted same r =
      next_number b' t' date' (count_up b t date r cs) ≡ next_number b' t' date' cs + taken same

  same_scan :
      same_day b t date b' t' date' ≡ true
      → find? (is_counter b t date) cs ≡ find? (is_counter b' t' date') cs
  same_scan same =
      let (eb, et, ed) = same_day_keys b t date b' t' date' same in
      λ j. find? (is_counter (eb j) (et j) (ed j)) cs

  Counted-none :
      find? (is_counter b t date) cs ≡ none → Counted (same_day b t date b' t' date') none
  Counted-none e = elim (Bool-cases (same_day b t date b' t' date')) [
    | inl same ↦
        rw (same, find?-append (is_counter b' t' date') cs, sym (same_scan same) ∙ e) (rw same refl)
    | inr other ↦
        rw (other, find?-append (is_counter b' t' date') cs)
          (rw other (unmoved (find? (is_counter b' t' date') cs)))
  ]
    where
      unmoved : (r : Option InvoiceCounter) → number_after (or_else r none) ≡ number_after r + 0
      unmoved none = refl
      unmoved (some c) = omega arith

  Counted-some :
      (c : InvoiceCounter)
      → find? (is_counter b t date) cs ≡ some c
      → Counted (same_day b t date b' t' date') (some c)
  Counted-some c e =
      ap number_after (find?-update (is_counter b' t' date') (is_counter b t date) _ (λ x. refl) cs)
      ∙ moved (find? (is_counter b' t' date') cs) refl
    where
      moved :
          (r : Option InvoiceCounter)
          → find? (is_counter b' t' date') cs ≡ r
          → number_after (
              map_option
                (touched (is_counter b t date) (λ c. record c { next_number = c.next_number + 1 }))
                r)
            ≡ number_after r + taken (same_day b t date b' t' date')
      moved none f = elim (Bool-cases (same_day b t date b' t' date')) [
        | inl same ↦ cc (e, f, same_scan same)
        | inr other ↦ rw other refl
      ]
      moved (some x) f = let hit = find?-true (is_counter b' t' date') cs f in ground arith

-- After a number is taken at an outlet on a day, the next number of that day there is one more, and
-- the next number of every other day and outlet is what it was; the number taken was the next one.
pub allocate_invoice_number_counts :
    (b t date b' t' date' : ℕ) (env : Env) (db : Db)
    → let (number, d) = allocate_invoice_number b t date env db in
      (number ≡ (date, next_number b t date db.invoice_counters))
      × (next_number b' t' date' d.invoice_counters
          ≡ next_number b' t' date' db.invoice_counters + taken (same_day b t date b' t' date'))
unfolding allocate_invoice_number
allocate_invoice_number_counts b t date b' t' date' env db =
    (refl, go (find? (is_counter b t date) db.invoice_counters) refl)
  where
    go :
        (r : Option InvoiceCounter)
        → find? (is_counter b t date) db.invoice_counters ≡ r
        → Counted b t date b' t' date' db.invoice_counters (same_day b t date b' t' date') r
    go none e = Counted-none b t date b' t' date' db.invoice_counters e
    go (some c) e = Counted-some b t date b' t' date' db.invoice_counters c e

cancel_left : (xs ys zs : List ℕ) → xs ++ ys ≡ xs ++ zs → ys ≡ zs
cancel_left [] ys zs h = h
cancel_left (x ∷ xs) ys zs h = cancel_left xs ys zs cc

split_equal :
    (xs xs' ys ys' : List ℕ)
    → length xs ≡ length xs'
    → xs ++ ys ≡ xs' ++ ys'
    → (xs ≡ xs') × (ys ≡ ys')
split_equal [] [] ys ys' same h = (refl, h)
split_equal [] (x ∷ xs') ys ys' same h = absurd (omega arith)
split_equal (x ∷ xs) [] ys ys' same h = absurd (omega arith)
split_equal (x ∷ xs) (x' ∷ xs') ys ys' same h =
    let (tails, rest) = split_equal xs xs' ys ys' (omega arith) cc in (cc, rest)

-- Two invoice numbers with the same outlet code and dates of at most eight digits are the same text
-- only if they have the same date and the same sequence number.
pub invoice_number_of-injective :
    (code : Text) (date seq date' seq' : ℕ)
    → date < 100000000
    → date' < 100000000
    → invoice_number_of code date seq ≡ invoice_number_of code date' seq'
    → (date ≡ date') × (seq ≡ seq')
unfolding invoice_number_of
invoice_number_of-injective code date seq date' seq' low low' h =
    let after =
      cancel_left code (45 ∷ (padded 8 date ++ 45 ∷ padded 6 seq))
        (45 ∷ (padded 8 date' ++ 45 ∷ padded 6 seq')) h in
    let (dates, rest) =
      split_equal (45 ∷ padded 8 date) (45 ∷ padded 8 date') (45 ∷ padded 6 seq)
        (45 ∷ padded 6 seq') (omega (arith, padded-length date 7 low, padded-length date' 7 low'))
        after in
    (
      sym (padded-value 8 date) ∙ (ap (digits_value 0) (ap (drop 1) dates) ∙ padded-value 8 date'),
      sym (padded-value 6 seq) ∙ (ap (digits_value 0) (ap (drop 1) rest) ∙ padded-value 6 seq'),
    )
