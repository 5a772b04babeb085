-- ===== src/RateLimit/Bounded.antt =====
-- The table of the limiter stays within its capacity, and its counters within the limit.
use launlog_api.Prelude.{
  ℕ, ◌+◌, ◌≤◌, Bool, not, ◌≡◌, Option, none, some, List, length, find?, select, leb, All, All-find?,
  arith, refl, Bool-cases, inl, inr,
}
use launlog_api.Prelude.Text.{Text}
use launlog_api.RateLimit.{
  RateEntry, Row, AuthLimiter, is_expired, has_key, store, fetched, swept, counted, charge,
  begin_window, proceed, visit, new_auth_limiter,
}
use launlog_api.RateLimit.Scans.{
  find?-exists, select-length, All-select, store-length, store-length_le, store-All,
}

-- No more rows than the capacity, and no counter more than one above the limit.
abbrev pub IsWithin : ℕ → ℕ → List Row → Type 0
IsWithin capacity limit rows =
    (length rows ≤ capacity) × All (λ (x : Row). x.entry.count ≤ limit + 1) rows

pub record IsBounded (l : AuthLimiter) : Type 0 where
  pub rows_bounded : IsWithin l.capacity l.limit l.entries

counted_le : (limit : ℕ) (e : RateEntry) → e.count ≤ limit + 1 → (counted limit e).count ≤ limit + 1
unfolding counted
counted_le limit e h = ground arith

select-IsWithin :
    (capacity limit : ℕ) (keep : Row → Bool) (rows : List Row)
    → IsWithin capacity limit rows
    → IsWithin capacity limit (select keep rows)
select-IsWithin capacity limit keep rows (short, low) =
    (omega (arith, short, select-length keep rows), All-select _ keep rows low)

swept-IsWithin :
    (capacity limit now : ℕ) (rows : List Row)
    → IsWithin capacity limit rows
    → IsWithin capacity limit (swept capacity now rows)
unfolding swept
swept-IsWithin capacity limit now rows h = elim (Bool-cases (leb capacity (length rows))) [
  | inl full ↦ rw full (select-IsWithin capacity limit (λ x. not (is_expired now x)) rows h)
  | inr room ↦ rw room h
]

module _ (l : AuthLimiter) (key : Text) where
  charge-IsBounded :
      (e : RateEntry) (rows : List Row)
      → length (store key (counted l.limit e) rows) ≤ l.capacity
      → e.count ≤ l.limit + 1
      → All (λ (x : Row). x.entry.count ≤ l.limit + 1) rows
      → IsBounded (charge l key e rows).1
  unfolding charge
  charge-IsBounded e rows short low lows = record {
    rows_bounded = (
      short,
      store-All key (counted l.limit e) rows (λ e. e.count ≤ l.limit + 1) (counted_le l.limit e low)
          lows,
    );
  }

  begin_window-IsBounded :
      (now : ℕ) (rows : List Row)
      → IsWithin l.capacity l.limit rows
      → IsBounded (begin_window l key now rows).1
  unfolding begin_window
  begin_window-IsBounded now rows (short, low) = elim (Bool-cases (leb l.capacity (length rows))) [
    | inl full ↦ rw full (record { rows_bounded = (short, low) })
    | inr room ↦ rw room (
        charge-IsBounded (record { count = 0; until = now + l.window }) rows
          (ground (
            arith,
            store-length_le key (counted l.limit (record { count = 0; until = now + l.window }))
                rows,
          ))
          (omega arith) low)
  ]

  proceed-IsBounded :
      (now : ℕ) (r : Option Row)
      → find? (has_key key) l.entries ≡ r
      → IsBounded l
      → IsBounded (proceed l key now (fetched now key l.entries r)).1
  proceed-IsBounded now none found h =
      begin_window-IsBounded now _ (swept-IsWithin l.capacity l.limit now l.entries h.rows_bounded)
  proceed-IsBounded now (some x) found h = elim (Bool-cases (is_expired now x)) [
    | inl old ↦ rw old (
        begin_window-IsBounded now _ (
          swept-IsWithin l.capacity l.limit now _ (
            select-IsWithin l.capacity l.limit (λ x. not (has_key key x)) l.entries
              h.rows_bounded)))
    | inr live ↦
        let (short, low) = h.rows_bounded in
        rw live (
          charge-IsBounded x.entry l.entries
            (omega (
              arith,
              short,
              store-length key (counted l.limit x.entry) l.entries
                  (find?-exists (has_key key) l.entries found),
            ))
            (All-find? (λ (x : Row). x.entry.count ≤ l.limit + 1) (has_key key) l.entries low found)
            low)
  ]

  -- A request leaves the limiter's table within its capacity and each counter at most one above the
  -- limit, if they were before it, whatever the key and the time.
  pub visit-IsBounded : (now : ℕ) → IsBounded l → IsBounded (visit l key now).1
  unfolding visit
  visit-IsBounded now h = proceed-IsBounded now _ refl h

pub new_auth_limiter-IsBounded :
    (capacity limit window : ℕ) → IsBounded (new_auth_limiter capacity limit window)
unfolding new_auth_limiter
new_auth_limiter-IsBounded capacity limit window = record { rows_bounded = (omega arith, tt) }
