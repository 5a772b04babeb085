-- ===== src/Orders/Creation/Billed.antt =====
-- The rows of `order_items` that a new order stores, against the requested items and the catalog.
use launlog_api.Prelude.{
  ℕ, ◌+◌, ◌%◌, false, ◌≡◌, ◌⊎◌, some, List, [], ◌∷◌, map, All, Pairs, no_pairs, next_pair, refl, ap,
  subst,
}
use launlog_api.Prelude.Int.{ℤ, pos, ◌+ℤ◌, ◌≤ℤ◌, InInt64}
use launlog_api.Store.{Db, Order, OrderItem, Service, is_pcs}
use launlog_api.Effect.{ok}
use launlog_api.Query.Creation as Sql
use launlog_api.Orders.Quantity.{parse_milli_quantity}
use launlog_api.Orders.Lines.{OrderItemInput, CalculatedLine}
use launlog_api.Orders.Lines.Bill.{IsLine, IsRounded, IsLine-nonneg, sum_lines}
use launlog_api.Orders.Creation.{PerfumeChoice}
use launlog_api.Orders.Creation.Writes.{stored_items}

-- The row bills the requested item to the order `order_id` of the business `b`: it has the name, the
-- unit and the price of the active service that the item names, the quantity that the item's text
-- writes, whole for pieces, and that price for that quantity, rounded to the nearest rupiah.
pub record IsBilled (b order_id : ℕ) (db : Db) (item : OrderItemInput) (row : OrderItem)
    : Type 0 where
  pub service : Service
  pub milli : ℕ
  pub is_service : Sql.get_active_order_service b item.service_id db ≡ some service
  pub reads : parse_milli_quantity item.quantity ≡ ok milli
  pub of_business : row.business_id ≡ b
  pub of_order : row.order_id ≡ order_id
  pub of_service : row.service_id ≡ item.service_id
  pub same_name : row.service_name_snapshot ≡ service.name
  pub same_unit : row.service_unit_snapshot ≡ service.unit
  pub same_price : row.unit_price_amount_snapshot ≡ service.unit_price_amount
  pub same_quantity : row.quantity ≡ pos milli
  pub whole_pieces : (is_pcs service.unit ≡ false) ⊎ (milli % 1000 ≡ 0)
  pub not_below : pos 0 ≤ℤ row.line_total_amount
  pub rounded : IsRounded milli service.unit_price_amount row.line_total_amount
  pub fits : InInt64 row.line_total_amount
  pub same_notes : row.notes ≡ item.notes

abbrev pub sum_rows : List OrderItem → ℤ
sum_rows [] = pos 0
sum_rows (x ∷ xs) = x.line_total_amount +ℤ sum_rows xs

module _ (o : Order) (perfume : PerfumeChoice) (db : Db) where
  pub sum_rows-stored :
      (next : ℕ) (lines : List CalculatedLine)
      → sum_rows (stored_items o perfume next lines) ≡ sum_lines lines
  sum_rows-stored next [] = refl
  sum_rows-stored next (l ∷ ls) = ap (λ z. l.line_total +ℤ z) (sum_rows-stored (next + 1) ls)

  stored-Pairs :
      (next : ℕ) (lines : List CalculatedLine)
      → All (IsLine o.business_id db) lines
      → Pairs
          (IsBilled o.business_id o.id db)
          (map (λ l. l.input) lines)
          (stored_items o perfume next lines)
  stored-Pairs next [] _ = no_pairs
  stored-Pairs next (l ∷ ls) (h, hs) =
      next_pair
        (record {
          service = h.service;
          milli = l.milli;
          is_service = h.is_service;
          reads = h.reads;
          of_business = refl;
          of_order = refl;
          of_service = refl;
          same_name = h.same_name;
          same_unit = h.same_unit;
          same_price = h.same_price;
          same_quantity = refl;
          whole_pieces =
              subst (λ u. (is_pcs u ≡ false) ⊎ (l.milli % 1000 ≡ 0)) h.same_unit h.whole_pieces;
          not_below = IsLine-nonneg o.business_id db l h;
          rounded = subst (λ price. IsRounded l.milli price l.line_total) h.same_price h.rounded;
          fits = h.fits;
          same_notes = refl;
        })
        (stored-Pairs (next + 1) ls hs)

  -- The stored rows bill the items that their lines are of, in order.
  pub stored-IsBilled :
      (next : ℕ) (items : List OrderItemInput) (lines : List CalculatedLine)
      → map (λ l. l.input) lines ≡ items
      → All (IsLine o.business_id db) lines
      → Pairs (IsBilled o.business_id o.id db) items (stored_items o perfume next lines)
  stored-IsBilled next items lines same h =
      subst
        (λ items. Pairs (IsBilled o.business_id o.id db) items (stored_items o perfume next lines))
        same (stored-Pairs next lines h)
