-- ===== src/RateLimit/Verdicts.antt =====
-- Which requests the limiter allows.
use launlog_api.Prelude.{
  ℕ, ◌+◌, Bool, not, ◌&&◌, ◌≡◌, Option, none, some, List, [], ◌∷◌, if◌then◌else◌, length, find?,
  select, ltb, leb, arith, refl, sym, ap, ◌∙◌, Bool-cases, inl, inr,
}
use launlog_api.Prelude.Text.{Text}
use launlog_api.RateLimit.{
  RateEntry, Row, AuthLimiter, is_allowed, is_expired, has_key, remove, fetched, swept, counted,
  charge, begin_window, proceed, visit,
}
use launlog_api.RateLimit.Scans.{select-length}

-- The rows of other keys whose windows last.
abbrev pub others_live : AuthLimiter → Text → ℕ → ℕ
others_live l key now = length (select (λ x. not (is_expired now x)) (remove key l.entries))

-- A new window is allowed one request, and there is room for its row.
abbrev pub has_room : AuthLimiter → Text → ℕ → Bool
has_room l key now = ltb 0 l.limit && ltb (others_live l key now) l.capacity

abbrev pub admits : AuthLimiter → Text → ℕ → Option Row → Bool
admits l key now none = has_room l key now
admits l key now (some x) =
    if is_expired now x then has_room l key now else ltb x.entry.count l.limit

remove-none :
    (key : Text) (rows : List Row) → find? (has_key key) rows ≡ none → remove key rows ≡ rows
remove-none key [] h = refl
remove-none key (x ∷ rows) h = elim (Bool-cases (has_key key x)) [
  | inl hit ↦ ground arith
  | inr miss ↦ rw miss (ap (λ rest. x ∷ rest) (remove-none key rows (ground arith)))
]

charge_allows :
    (l : AuthLimiter) (key : Text) (e : RateEntry) (rows : List Row)
    → is_allowed (charge l key e rows).0 ≡ ltb e.count l.limit
unfolding charge counted
charge_allows l key e rows = ground arith

swept_full :
    (capacity now : ℕ) (rows : List Row)
    → leb capacity (length (swept capacity now rows))
      ≡ not (ltb (length (select (λ x. not (is_expired now x)) rows)) capacity)
unfolding swept
swept_full capacity now rows = ground (arith, select-length (λ x. not (is_expired now x)) rows)

begin_window_allows :
    (l : AuthLimiter) (key : Text) (now : ℕ) (rows : List Row)
    → is_allowed (begin_window l key now (swept l.capacity now rows)).0
      ≡ ltb 0 l.limit && ltb (length (select (λ x. not (is_expired now x)) rows)) l.capacity
unfolding begin_window
begin_window_allows l key now rows = ground (
  arith,
  swept_full l.capacity now rows,
  charge_allows l key (record { count = 0; until = now + l.window }) (swept l.capacity now rows),
)

proceed_allows :
    (l : AuthLimiter) (key : Text) (now : ℕ) (r : Option Row)
    → find? (has_key key) l.entries ≡ r
    → is_allowed (proceed l key now (fetched now key l.entries r)).0 ≡ admits l key now r
proceed_allows l key now none found =
    begin_window_allows l key now l.entries
    ∙ ap
        (λ rows.
          ltb 0 l.limit && ltb (length (select (λ x. not (is_expired now x)) rows)) l.capacity)
        (sym (remove-none key l.entries found))
proceed_allows l key now (some x) found = elim (Bool-cases (is_expired now x)) [
  | inl old ↦ rw old (begin_window_allows l key now (remove key l.entries))
  | inr live ↦ rw live (charge_allows l key x.entry l.entries)
]

-- A request is allowed exactly when its key has a counter whose window lasts and is below the limit,
-- or has no such counter, the limit is above zero, and fewer counters of other keys last than the
-- capacity.
pub visit_allows :
    (l : AuthLimiter) (key : Text) (now : ℕ)
    → is_allowed (visit l key now).0 ≡ admits l key now (find? (has_key key) l.entries)
unfolding visit
visit_allows l key now = proceed_allows l key now _ refl
