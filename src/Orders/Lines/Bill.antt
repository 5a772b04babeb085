-- ===== src/Orders/Lines/Bill.antt =====
-- What the calculated lines of an order promise.
use launlog_api.Prelude.{
  ℕ, ◌+◌, ◌*◌, ◌%◌, ◌≤◌, ◌<◌, Bool, true, false, not, ◌&&◌, ◌≡◌, ◌⊎◌, inl, inr, some, List, [], ◌∷◌,
  ◌==◌, map, All, All-find?, arith, refl, sym, subst, ap, ◌∙◌, if◌then◌else◌, Bool-cases,
}
use launlog_api.Prelude.Int.{
  ℤ, pos, negsuc, ◌+ℤ◌, ◌≤ℤ◌, pos_part, InInt64, times, quo, is_int64, is_int64-InInt64, int_laws,
  add_zero, add_assoc,
}
use launlog_api.Store.{Db, Service, is_pcs}
use launlog_api.Effect.{
  Env, Result, ok, err, invalid_order_quantity, order_service_not_found, or_no_rows, query_one,
  get_active_order_service,
}
use launlog_api.Effect.Hoare.{
  Reads, Ensures-pure, Ensures-or_no_rows, Ensures-query_one, after_read, after_lift,
}
use launlog_api.Query.Creation as Sql
use launlog_api.Actor.{Actor}
use launlog_api.Orders.Quantity.{parse_milli_quantity}
use launlog_api.Orders.Lines.{
  OrderItemInput, CalculatedLine, line_amount, fit_int64, with_amount, with_quantity,
  calculate_line, calculate_lines,
}

-- CHECK (unit_price_amount >= 0) of `services`.
abbrev pub IsPriced : Db → Type 0
IsPriced db = All (λ s. pos 0 ≤ℤ s.unit_price_amount) db.services

-- Half a rupiah and more is rounded up: a line is the nearest rupiah to what it costs.
abbrev pub IsRounded : ℕ → ℤ → ℤ → Type 0
IsRounded milli price amount =
    (1000 * pos_part amount ≤ milli * pos_part price + 500)
    × (milli * pos_part price + 500 < 1000 * pos_part amount + 1000)

pub line_amount-IsRounded :
    (milli : ℕ) (price : ℤ)
    → pos 0 ≤ℤ price
    → (pos 0 ≤ℤ line_amount milli price) × IsRounded milli price (line_amount milli price)
unfolding line_amount times quo ◌+ℤ◌
line_amount-IsRounded milli (pos p) h = ground arith
line_amount-IsRounded milli (negsuc p) h = absurd (omega arith)

-- A line of a bill of the business `b`: its name, unit and price are those of the active service
-- that its item names, its quantity is the one that its text writes, whole for pieces, its amount
-- fits an int64 and is its price for that quantity, rounded.
pub record IsLine (b : ℕ) (db : Db) (l : CalculatedLine) : Type 0 where
  pub service : Service
  pub is_service : Sql.get_active_order_service b l.input.service_id db ≡ some service
  pub same_name : l.service_name ≡ service.name
  pub same_unit : l.unit ≡ service.unit
  pub same_price : l.price ≡ service.unit_price_amount
  pub reads : parse_milli_quantity l.input.quantity ≡ ok l.milli
  pub whole_pieces : (is_pcs l.unit ≡ false) ⊎ (l.milli % 1000 ≡ 0)
  pub priced : pos 0 ≤ℤ l.price
  pub counted : l.line_total ≡ line_amount l.milli l.price
  pub rounded : IsRounded l.milli l.price l.line_total
  pub fits : InInt64 l.line_total

fit_int64-ok : (z y : ℤ) → fit_int64 z ≡ ok y → (y ≡ z) × InInt64 y
unfolding fit_int64
fit_int64-ok z y h = elim (Bool-cases (is_int64 z)) [
  | inl fits ↦
      let same : z ≡ y = ground arith in (sym same, subst InInt64 same (is_int64-InInt64 z fits))
  | inr wide ↦ ground arith
]

with_amount-IsLine :
    (b : ℕ) (db : Db) (item : OrderItemInput) (s : Service) (milli : ℕ) (r : Result ℤ)
    (l : CalculatedLine)
    → Sql.get_active_order_service b item.service_id db ≡ some s
    → parse_milli_quantity item.quantity ≡ ok milli
    → (is_pcs s.unit ≡ false) ⊎ (milli % 1000 ≡ 0)
    → pos 0 ≤ℤ s.unit_price_amount
    → ((y : ℤ) → r ≡ ok y → (y ≡ line_amount milli s.unit_price_amount) × InInt64 y)
    → with_amount item s milli r ≡ ok l
    → IsLine b db l × (l.input ≡ item)
with_amount-IsLine b db item s milli (err e) l found reads whole priced fit h = cc
with_amount-IsLine b db item s milli (ok y) l found reads whole priced fit h =
    let (counted, fits) = fit y refl in
    let same : line ≡ l = cc in
    subst (λ l. IsLine b db l × (l.input ≡ item)) same
      (
        record {
          service = s;
          is_service = found;
          same_name = refl;
          same_unit = refl;
          same_price = refl;
          reads = reads;
          whole_pieces = whole;
          priced = priced;
          counted = counted;
          rounded =
              subst (IsRounded milli s.unit_price_amount) (sym counted)
                (line_amount-IsRounded milli s.unit_price_amount priced).1;
          fits = fits;
        },
        refl,
      )
  where
    line : CalculatedLine
    line = record {
      input = item;
      service_name = s.name;
      unit = s.unit;
      price = s.unit_price_amount;
      milli = milli;
      line_total = y;
    }

pieces_test : (p : Bool) (n : ℕ) → p && not (n == 0) ≡ false → (p ≡ false) ⊎ (n ≡ 0)
pieces_test true n h = inr (ground arith)
pieces_test false n h = inl refl

calculate_line-IsLine :
    (b : ℕ) (db : Db) (item : OrderItemInput) (s : Service) (l : CalculatedLine)
    → Sql.get_active_order_service b item.service_id db ≡ some s
    → pos 0 ≤ℤ s.unit_price_amount
    → calculate_line item s ≡ ok l
    → IsLine b db l × (l.input ≡ item)
unfolding calculate_line
calculate_line-IsLine b db item s l found priced h = go (parse_milli_quantity item.quantity) refl h
  where
    checked :
        (milli : ℕ)
        → parse_milli_quantity item.quantity ≡ ok milli
        → (bad : Bool) → is_pcs s.unit && not (milli % 1000 == 0) ≡ bad
        → (if bad
            then err invalid_order_quantity
            else with_amount item s milli (fit_int64 (line_amount milli s.unit_price_amount)))
          ≡ ok l
        → IsLine b db l × (l.input ≡ item)
    checked milli reads true e h = cc
    checked milli reads false e h =
        with_amount-IsLine b db item s milli _ l found reads
          (pieces_test (is_pcs s.unit) (milli % 1000) e) priced (λ y fit. fit_int64-ok _ y fit) h

    go :
        (r : Result ℕ)
        → parse_milli_quantity item.quantity ≡ r
        → with_quantity item s r ≡ ok l
        → IsLine b db l × (l.input ≡ item)
    go (err e) reads h = cc
    go (ok milli) reads h = checked milli reads _ refl h

abbrev pub sum_lines : List CalculatedLine → ℤ
sum_lines [] = pos 0
sum_lines (l ∷ ls) = l.line_total +ℤ sum_lines ls

-- The lines are those of the items, in order, at the prices of the business `b`, and the sum is the total before and theirs.
abbrev pub IsBill : ℕ → Db → ℤ → List OrderItemInput → ℤ × List CalculatedLine → Type 0
IsBill b db total items (sum, lines) =
    (map (λ l. l.input) lines ≡ items)
    × All (IsLine b db) lines
    × (sum ≡ total +ℤ sum_lines lines)
    × (pos 0 ≤ℤ sum)
    × InInt64 sum

nonneg_sum : (a b c : ℤ) → pos 0 ≤ℤ a → pos 0 ≤ℤ b → c ≡ a +ℤ b → pos 0 ≤ℤ c
nonneg_sum a b c ha hb e = subst (λ z. pos 0 ≤ℤ z) (sym e) (omega int_laws)

pub IsLine-nonneg : (b : ℕ) (db : Db) (l : CalculatedLine) → IsLine b db l → pos 0 ≤ℤ l.line_total
IsLine-nonneg b db l h =
    subst (λ z. pos 0 ≤ℤ z) (sym h.counted) (line_amount-IsRounded l.milli l.price h.priced).0

module _ (actor : Actor) (env : Env) (db : Db) (priced : IsPriced db) where
  service-Reads :
      (b i round : ℕ)
      → Reads env
          (or_no_rows order_service_not_found
            (query_one (get_active_order_service round) (Sql.get_active_order_service b i)))
          db
          (λ s. (Sql.get_active_order_service b i db ≡ some s) × (pos 0 ≤ℤ s.unit_price_amount))
  unfolding Sql.get_active_order_service
  service-Reads b i round =
      Ensures-or_no_rows _ _
        (Ensures-query_one _ _ (λ s e. (refl, (e, All-find? _ _ db.services priced e))))

  pub calculate_lines-Reads :
      (round : ℕ) (total : ℤ) (items : List OrderItemInput)
      → pos 0 ≤ℤ total
      → InInt64 total
      → Reads env
          (calculate_lines actor round total items)
          db
          (IsBill actor.business_id db total items)
  unfolding calculate_lines
  calculate_lines-Reads round total [] low range =
      Ensures-pure _ (refl, (refl, tt, sym (add_zero total), low, range))
  calculate_lines-Reads round total (item ∷ items) low range =
      after_read _ _ (service-Reads actor.business_id item.service_id round) λ s (found, price).
        after_lift _ _ λ line calculated.
          let (is_line, of_item) =
            calculate_line-IsLine actor.business_id db item s line found price calculated in
          after_lift _ _ λ sum fit.
            let (is_sum, fits) = fit_int64-ok _ sum fit in
            after_read _ _
              (calculate_lines-Reads (round + 1) sum items
                (nonneg_sum total line.line_total sum low
                  (IsLine-nonneg actor.business_id db line is_line) is_sum)
                fits)
              λ rest (of_items, are_lines, is_rest, above, within). Ensures-pure _ (
                refl,
                (
                  (λ j. of_item j ∷ of_items j),
                  (is_line, are_lines),
                  is_rest
                      ∙ (ap (λ z. z +ℤ sum_lines rest.1) is_sum
                          ∙ add_assoc total line.line_total (sum_lines rest.1)),
                  above,
                  within,
                ),
              )
