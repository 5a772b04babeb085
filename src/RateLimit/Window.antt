-- ===== src/RateLimit/Window.antt =====
-- What a key may do before its window ends.
use launlog_api.Prelude.{
  ℕ, ◌+◌, ◌-◌, ◌≤◌, ◌<◌, Bool, true, false, not, ◌&&◌, ◌≡◌, Option, none, some, List, [], ◌∷◌,
  length, find?, find?-true, select, ltb, leb, eq_text, eq_text-eq, eq_text_refl, All, arith, refl,
  sym, ap, subst, ◌∙◌, Bool-cases, inl, inr,
}
use launlog_api.Prelude.Text.{Text}
use launlog_api.RateLimit.{
  RateEntry, Row, AuthLimiter, Verdict, is_allowed, is_expired, has_key, remove, fetched, swept,
  counted, charge, begin_window, proceed, visit,
}
use launlog_api.RateLimit.Scans.{find?-select, find?-store, find?-store_other}

-- The counter of a key.
abbrev pub Counts : Text → RateEntry → List Row → Type 0
Counts key e rows = (x : Row) × (find? (has_key key) rows ≡ some x) × (x.entry ≡ e)

abbrev pub one_if : Bool → ℕ
one_if true = 1
one_if false = 0

-- How many of these requests of a key are allowed. A request is a key and a time.
unfoldable pub allowed_of : Text → List (Text × ℕ) → AuthLimiter → ℕ
allowed_of key [] l = 0
allowed_of key ((k, now) ∷ visits) l =
    let (verdict, after) = visit l k now in
    one_if (eq_text key k && is_allowed verdict) + allowed_of key visits after

module _ (key : Text) (e : RateEntry) (now : ℕ) (live : now < e.until) where
  still : (x : Row) → x.entry ≡ e → is_expired now x ≡ false
  still x same = ap (λ (e : RateEntry). leb e.until now) same ∙ ground arith

  kept-Counts :
      (keep : Row → Bool) (rows : List Row)
      → ((x : Row) → has_key key x ≡ true → x.entry ≡ e → keep x ≡ true)
      → Counts key e rows
      → Counts key e (select keep rows)
  kept-Counts keep rows stays (x, found, same) = (
    x,
    find?-select (has_key key) keep rows found (stays x (find?-true (has_key key) rows found) same),
    same,
  )

  swept-Counts :
      (capacity : ℕ) (rows : List Row) → Counts key e rows → Counts key e (swept capacity now rows)
  unfolding swept
  swept-Counts capacity rows c = elim (Bool-cases (leb capacity (length rows))) [
    | inl full ↦
        rw full
          (kept-Counts (λ x. not (is_expired now x)) rows (λ x _ same. rw (still x same) refl) c)
    | inr room ↦ rw room c
  ]

  -- The request of another key leaves the counter alone.
  module _ (l : AuthLimiter) (other : Text) (apart : eq_text key other ≡ false) where
    charge-Counts :
        (e' : RateEntry) (rows : List Row)
        → Counts key e rows
        → Counts key e (charge l other e' rows).1.entries
    unfolding charge
    charge-Counts e' rows (x, found, same) =
        (x, find?-store_other other (counted l.limit e') rows key apart found, same)

    begin_window-Counts :
        (rows : List Row)
        → Counts key e rows
        → Counts key e (begin_window l other now rows).1.entries
    unfolding begin_window
    begin_window-Counts rows c = elim (Bool-cases (leb l.capacity (length rows))) [
      | inl full ↦ rw full c
      | inr room ↦ rw room (charge-Counts (record { count = 0; until = now + l.window }) rows c)
    ]

    removed-Counts : Counts key e l.entries → Counts key e (remove other l.entries)
    removed-Counts c =
        kept-Counts (λ x. not (has_key other x)) l.entries
          (λ x hit _. rw (ap (λ k. eq_text k other) (eq_text-eq x.key key hit) ∙ apart) refl) c

    proceed-Counts :
        (r : Option Row)
        → Counts key e l.entries
        → Counts key e (proceed l other now (fetched now other l.entries r)).1.entries
    proceed-Counts none c = begin_window-Counts _ (swept-Counts l.capacity l.entries c)
    proceed-Counts (some x) c = elim (Bool-cases (is_expired now x)) [
      | inl old ↦ rw old (begin_window-Counts _ (swept-Counts l.capacity _ (removed-Counts c)))
      | inr young ↦ rw young (charge-Counts x.entry l.entries c)
    ]

    -- While the window of a key's counter lasts, a request of another key leaves the counter as it
    -- is, also when the table is full.
    pub visit_other : Counts key e l.entries → Counts key e (visit l other now).1.entries
    unfolding visit
    visit_other c = proceed-Counts _ c

  -- A request of the key itself is counted.
  visit_self :
      (l : AuthLimiter) (x : Row)
      → find? (has_key key) l.entries ≡ some x
      → x.entry ≡ e
      → visit l key now ≡ charge l key x.entry l.entries
  unfolding visit
  visit_self l x found same =
      ap (λ r. proceed l key now (fetched now key l.entries r)) found ∙ rw (still x same) refl

charge_next :
    (l : AuthLimiter) (key : Text) (x : Row)
    → find? (has_key key) l.entries ≡ some x
    → Counts key (counted l.limit x.entry) (charge l key x.entry l.entries).1.entries
      × ((charge l key x.entry l.entries).1.limit ≡ l.limit)
      × (is_allowed (charge l key x.entry l.entries).0 ≡ ltb x.entry.count l.limit)
unfolding charge counted
charge_next l key x found =
    ((_, find?-store key (counted l.limit x.entry) l.entries found, refl), refl, ground arith)

proceed_limit :
    (l : AuthLimiter) (key : Text) (now : ℕ) (p : Option RateEntry × List Row)
    → (proceed l key now p).1.limit ≡ l.limit
unfolding begin_window charge
proceed_limit l key now (some e, rows) = refl
proceed_limit l key now (none, rows) =
    elim (Bool-cases (leb l.capacity (length (swept l.capacity now rows)))) [
      | inl full ↦ rw full refl
      | inr room ↦ rw room refl
    ]

visit_limit : (l : AuthLimiter) (key : Text) (now : ℕ) → (visit l key now).1.limit ≡ l.limit
unfolding visit
visit_limit l key now = proceed_limit l key now _

counted-until : (limit : ℕ) (e : RateEntry) → (counted limit e).until ≡ e.until
unfolding counted
counted-until limit e = elim (Bool-cases (leb e.count limit)) [
  | inl h ↦ rw h refl
  | inr h ↦ rw h refl
]

-- What is left of the limit after one more request.
one_less :
    (limit rest : ℕ) (e : RateEntry)
    → rest ≤ limit - (counted limit e).count
    → one_if (ltb e.count limit) + rest ≤ limit - e.count
unfolding counted
one_less limit rest e h = ground arith

abbrev AllowsAfter :
    Text → Text → List (Text × ℕ) → AuthLimiter → RateEntry → Verdict × AuthLimiter → Type 0
AllowsAfter key k visits l e p =
    one_if (eq_text key k && is_allowed p.0) + allowed_of key visits p.1 ≤ l.limit - e.count

abbrev Allows : Text → Text → ℕ → List (Text × ℕ) → AuthLimiter → RateEntry → Type 0
Allows key k now visits l e = AllowsAfter key k visits l e (visit l k now)

-- While the window of a key's counter lasts, any sequence of requests, whatever their keys, has at
-- most as many allowed requests of that key as the counter is short of the limit.
pub allowed_in_window :
    (key : Text) (e : RateEntry) (visits : List (Text × ℕ)) (l : AuthLimiter)
    → Counts key e l.entries
    → All (λ v. v.1 < e.until) visits
    → allowed_of key visits l ≤ l.limit - e.count
unfolding allowed_of
allowed_in_window key e [] l c early = omega arith
allowed_in_window key e ((k, now) ∷ visits) l c (live, early) = elim (Bool-cases (eq_text key k)) [
  | inr apart ↦
      let rest =
        allowed_in_window key e visits (visit l k now).1 (visit_other key e now live l k apart c)
          early in
      rw apart (
        omega (
          arith,
          subst (λ n. allowed_of key visits (visit l k now).1 ≤ n - e.count) (visit_limit l k now)
              rest,
        ))
  | inl same ↦
      let (x, found, is_e) = c in
      let after = (charge l key x.entry l.entries).1 in
      let (counts, same_limit, verdict) = charge_next l key x found in
      let rest = allowed_in_window key (counted l.limit x.entry) visits after counts (
        subst (λ u. All (λ (v : Text × ℕ). v.1 < u) visits)
          (sym (counted-until l.limit x.entry ∙ ap (λ (e : RateEntry). e.until) is_e)) early) in
      subst (λ k. Allows key k now visits l e) (eq_text-eq key k same)
        (subst (λ p. AllowsAfter key key visits l e p)
          (sym (visit_self key e now live l x found is_e))
          (subst (λ e. AllowsAfter key key visits l e (charge l key x.entry l.entries)) is_e
            (rw (eq_text_refl key, verdict)
              (one_less l.limit (allowed_of key visits after) x.entry (
                subst (λ n. allowed_of key visits after ≤ n - (counted l.limit x.entry).count)
                  same_limit rest)))))
]
