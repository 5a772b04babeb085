-- ===== src/Tests/Limits.antt =====
-- The limiter's theorems at work on a small limiter.
use launlog_api.Prelude.{◌≡◌, ◌≤◌, ◌-◌, ◌+◌, ◌*◌, some, refl, arith, [], ◌∷◌}
use launlog_api.Prelude.Int.{pos, ◌≤ℤ◌, quo, ◌+ℤ◌}
use launlog_api.Prelude.Text.{codes}
use launlog_api.RateLimit.{
  AuthLimiter, visit, new_auth_limiter, too_many, refused_full, retry_seconds, swept, counted,
  charge, begin_window,
}
use launlog_api.RateLimit.Bounded.{IsBounded, visit-IsBounded, new_auth_limiter-IsBounded}
use launlog_api.RateLimit.Window.{allowed_of, allowed_in_window, visit_other, Counts}
use launlog_api.RateLimit.Verdicts.{visit_allows, admits}
use launlog_api.RateLimit.Retry.{too_many_waits}
use launlog_api.RateLimit.{is_allowed, has_key}
use launlog_api.Prelude.{find?}

-- Two requests a minute, and a table of one row, after one request at time 0.
abbrev once : AuthLimiter
once = (visit (new_auth_limiter 1 2 60) (codes "/login:a") 0).1

once-Counts : Counts (codes "/login:a") (record { count = 1; until = 60 }) once.entries
unfolding visit new_auth_limiter begin_window charge counted swept
once-Counts = (_, refl, refl)

-- Another key finds the table full; of three more requests of the first, one is allowed.
allowed_run :
    allowed_of
      (codes "/login:a")
      ((codes "/login:a", 1) ∷ (codes "/login:b", 2) ∷ (codes "/login:a", 3) ∷ [])
      once
    ≡ 1
unfolding allowed_of visit new_auth_limiter begin_window charge counted swept
allowed_run = refl

allowed_in_window_example :
    allowed_of
      (codes "/login:a")
      ((codes "/login:a", 1) ∷ (codes "/login:b", 2) ∷ (codes "/login:a", 3) ∷ [])
      once
    ≤ once.limit - 1
allowed_in_window_example =
    allowed_in_window (codes "/login:a") (record { count = 1; until = 60 })
      ((codes "/login:a", 1) ∷ (codes "/login:b", 2) ∷ (codes "/login:a", 3) ∷ []) once once-Counts
      (omega arith, (omega arith, (omega arith, tt)))

visit-IsBounded_example : IsBounded once
visit-IsBounded_example =
    visit-IsBounded (new_auth_limiter 1 2 60) (codes "/login:a") 0
      (new_auth_limiter-IsBounded 1 2 60)

visit_other_example :
    Counts
      (codes "/login:a")
      (record { count = 1; until = 60 })
      (visit once (codes "/login:b") 2).1.entries
visit_other_example =
    visit_other (codes "/login:a") (record { count = 1; until = 60 }) 2 (omega arith) once
      (codes "/login:b") refl once-Counts

visit_allows_example :
    is_allowed (visit once (codes "/login:b") 2).0
    ≡ admits once (codes "/login:b") 2 (find? (has_key (codes "/login:b")) once.entries)
visit_allows_example = visit_allows once (codes "/login:b") 2

waits : too_many 0 (refused_full 60000000000) ≡ some (pos 61)
unfolding too_many retry_seconds quo ◌+ℤ◌
waits = refl

too_many_waits_example : (pos 1 ≤ℤ pos 61) × (0 + 60000000000 ≤ 0 + 1000000000 * 61)
too_many_waits_example = too_many_waits 0 (refused_full 60000000000) (pos 61) waits
