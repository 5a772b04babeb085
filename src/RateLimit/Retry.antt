-- ===== src/RateLimit/Retry.antt =====
-- The seconds after which a refused request may be made again.
use mathlib.Core.Option.{some-injective}
use launlog_api.Prelude.{ℕ, ◌+◌, ◌*◌, ◌≤◌, ◌≡◌, some, arith, subst}
use launlog_api.Prelude.Int.{ℤ, pos, negsuc, ◌≤ℤ◌, ◌-ℤ◌, ◌+ℤ◌, pos_part, quo}
use launlog_api.RateLimit.{Verdict, allowed, refused_full, refused_until, retry_seconds, too_many}

retry_seconds_bounds :
    (z : ℤ) → (pos 1 ≤ℤ retry_seconds z) × (pos_part z ≤ 1000000000 * pos_part (retry_seconds z))
unfolding retry_seconds quo ◌+ℤ◌
retry_seconds_bounds (pos n) = ground arith
retry_seconds_bounds (negsuc n) = ground arith

-- When the window that refused a request ends.
abbrev pub end_of : ℕ → Verdict → ℕ
end_of later allowed = later
end_of later (refused_full window) = later + window
end_of later (refused_until until) = until

rest_of : (until later : ℕ) → until ≤ later + pos_part (pos until -ℤ pos later)
unfolding ◌-ℤ◌ ◌+ℤ◌
rest_of until later = ground arith

-- The seconds that a refusal asks to wait are at least 1, and last until the window that refused the
-- request has ended.
pub too_many_waits :
    (later : ℕ) (v : Verdict) (s : ℤ)
    → too_many later v ≡ some s
    → (pos 1 ≤ℤ s) × (end_of later v ≤ later + 1000000000 * pos_part s)
unfolding too_many
too_many_waits later allowed s h = cc
too_many_waits later (refused_full window) s h =
    let (one, long) = retry_seconds_bounds (pos window) in
    subst (λ s. (pos 1 ≤ℤ s) × (later + window ≤ later + 1000000000 * pos_part s))
      (some-injective _ _ h) (one, omega (arith, long))
too_many_waits later (refused_until until) s h =
    let (one, long) = retry_seconds_bounds (pos until -ℤ pos later) in
    subst (λ s. (pos 1 ≤ℤ s) × (until ≤ later + 1000000000 * pos_part s)) (some-injective _ _ h)
      (one, omega (arith, long, rest_of until later))
