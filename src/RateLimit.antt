-- ===== src/RateLimit.antt =====
-- The limiter of authentication requests (internal/middleware/auth_limits.go): a table of counters,
-- one for each key, with a window of time. Time is a number of nanoseconds.
pub mod Scans
pub mod Bounded
pub mod Window
pub mod Verdicts
pub mod Retry
use launlog_api.Prelude.{
  ℕ, ◌+◌, Bool, true, false, not, Option, none, some, List, [], ◌∷◌, ◌++◌, if◌then◌else◌, ltb, leb,
  length, find?, exists, select, update, eq_text,
}
use launlog_api.Prelude.Int.{ℤ, pos, ◌+ℤ◌, ◌-ℤ◌, quo, ltb_ℤ}
use launlog_api.Prelude.Text.{Text}

pub record RateEntry : Type 0 where
  pub count : ℕ
  pub until : ℕ

-- A row of the map `entries`.
pub record Row : Type 0 where
  pub key : Text
  pub entry : RateEntry

pub record AuthLimiter : Type 0 where
  pub entries : List Row
  pub capacity : ℕ
  pub limit : ℕ
  pub window : ℕ

-- What a request gets: the next handler, or a refusal. A full table refuses for a whole window, a
-- spent counter until its window ends.
pub data Verdict : Type 0 where
  allowed : Verdict
  refused_full : ℕ → Verdict
  refused_until : ℕ → Verdict

abbrev pub is_allowed : Verdict → Bool
is_allowed allowed = true
is_allowed (refused_full _) = false
is_allowed (refused_until _) = false

unfoldable pub new_auth_limiter : ℕ → ℕ → ℕ → AuthLimiter
new_auth_limiter capacity limit window = record {
  entries = [];
  capacity = capacity;
  limit = limit;
  window = window;
}

-- `!now.Before(until)`.
abbrev pub is_expired : ℕ → Row → Bool
is_expired now x = leb x.entry.until now

abbrev pub has_key : Text → Row → Bool
has_key key x = eq_text x.key key

-- `delete(l.entries, key)`.
abbrev pub remove : Text → List Row → List Row
remove key rows = select (λ x. not (has_key key x)) rows

-- `l.entries[key] = entry`.
abbrev pub store : Text → RateEntry → List Row → List Row
store key e rows =
    if exists (has_key key) rows
    then update (has_key key) (λ x. record x { entry = e }) rows
    else rows ++ (record { key = key; entry = e }) ∷ []

-- The entry of a key that is not expired, and the table without an expired one.
abbrev pub fetched : ℕ → Text → List Row → Option Row → Option RateEntry × List Row
fetched now key rows none = (none, rows)
fetched now key rows (some x) =
    if is_expired now x then (none, remove key rows) else (some x.entry, rows)

-- A full table loses its expired entries.
unfoldable pub swept : ℕ → ℕ → List Row → List Row
swept capacity now rows =
    if leb capacity (length rows) then select (λ x. not (is_expired now x)) rows else rows

unfoldable pub counted : ℕ → RateEntry → RateEntry
counted limit e = if leb e.count limit then record e { count = e.count + 1 } else e

-- The request is counted, and refused above the limit.
unfoldable pub charge : AuthLimiter → Text → RateEntry → List Row → Verdict × AuthLimiter
charge l key e rows =
    let e' = counted l.limit e in
    (
      (if ltb l.limit e'.count then refused_until e'.until else allowed),
      record l { entries = store key e' rows },
    )

-- A key with no entry, once a full table is swept.
unfoldable pub begin_window : AuthLimiter → Text → ℕ → List Row → Verdict × AuthLimiter
begin_window l key now rows =
    if leb l.capacity (length rows)
    then (refused_full l.window, record l { entries = rows })
    else charge l key (record { count = 0; until = now + l.window }) rows

abbrev pub proceed : AuthLimiter → Text → ℕ → Option RateEntry × List Row → Verdict × AuthLimiter
proceed l key now (some e, rows) = charge l key e rows
proceed l key now (none, rows) = begin_window l key now (swept l.capacity now rows)

-- `Middleware`: one request, under the lock.
unfoldable pub visit : AuthLimiter → Text → ℕ → Verdict × AuthLimiter
visit l key now = proceed l key now (fetched now key l.entries (find? (has_key key) l.entries))

-- The whole seconds of `Retry-After`, for a duration in nanoseconds: at least 1.
unfoldable pub retry_seconds : ℤ → ℤ
retry_seconds retry =
    let seconds = quo retry 1000000000 +ℤ pos 1 in if ltb_ℤ seconds (pos 1) then pos 1 else seconds

-- `tooMany`: none for a request that goes on. The rest of a window is taken at a later time.
unfoldable pub too_many : ℕ → Verdict → Option ℤ
too_many later allowed = none
too_many later (refused_full window) = some (retry_seconds (pos window))
too_many later (refused_until until) = some (retry_seconds (pos until -ℤ pos later))
