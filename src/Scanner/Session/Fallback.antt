-- ===== src/Scanner/Session/Fallback.antt =====
-- The fallback against Eastern Standard Time, which it stands in for.
use stock_scanner.Prelude.{
  ℕ, ◌+◌, ◌-◌, ◌<◌, ◌≤◌, ◌≡◌, refl, Bool, true, false, none, some, arith, ◌⊎◌, inl, inr,
}
use stock_scanner.Scanner.Session.{
  postmarket, closed, weekday, time_of_day, is_weekend, eastern_session, utc_session,
  get_market_session, get_market_session_fallback,
}

-- Eastern Standard Time all year round, UTC - 5 hours.
abbrev pub standard_time : ℕ → ℕ
standard_time t = t - 18000000000000

shifted_time : (t : ℕ) → 300 ≤ time_of_day t → time_of_day t ≡ time_of_day (standard_time t) + 300
unfolding time_of_day
shifted_time t h = omega arith

shifted_weekday : (t : ℕ) → 300 ≤ time_of_day t → is_weekend t ≡ is_weekend (standard_time t)
unfolding time_of_day is_weekend
shifted_weekday t h = ground arith

time_below : (t : ℕ) → time_of_day t < 1440
unfolding time_of_day
time_below t = omega arith

sessions_shift :
    (weekend : Bool) (m : ℕ) → m < 1140 → utc_session weekend (m + 300) ≡ eastern_session weekend m
sessions_shift true m h = refl
sessions_shift false m h = ground arith

-- From 05:00 UTC to midnight the fallback gives the session that Eastern Standard Time gives.
pub fallback-standard_time :
    (t : ℕ)
    → 300 ≤ time_of_day t
    → get_market_session none t ≡ get_market_session (some standard_time) t
unfolding get_market_session get_market_session_fallback
fallback-standard_time t h =
    rw (shifted_weekday t h, shifted_time t h)
      (sessions_shift (is_weekend (standard_time t)) (time_of_day (standard_time t))
        (omega (arith, shifted_time t h, time_below t)))

friday_evening :
    (t : ℕ)
    → 18000000000000 ≤ t
    → weekday t ≡ 6
    → time_of_day t < 60
    → (is_weekend t ≡ true)
      × (is_weekend (standard_time t) ≡ false)
      × (time_of_day (standard_time t) ≡ time_of_day t + 1140)
unfolding time_of_day is_weekend
friday_evening t p w h = (ground arith, ground arith, omega arith)

sunday_evening :
    (t : ℕ)
    → 18000000000000 ≤ t
    → weekday t ≡ 1
    → (is_weekend t ≡ false) × (time_of_day t < 60 → is_weekend (standard_time t) ≡ true)
unfolding time_of_day is_weekend
sunday_evening t p w = (ground arith, λ h. ground arith)

-- In the first hour of a UTC day the fallback goes by the weekday of UTC. On a Saturday it says
-- closed, where Eastern Standard Time has Friday's post-market; on a Monday it says post-market,
-- where Eastern Standard Time has Sunday, closed.
pub fallback_first_hour :
    (t : ℕ)
    → 18000000000000 ≤ t
    → time_of_day t < 60
    → (weekday t ≡ 6) ⊎ (weekday t ≡ 1)
    → ((weekday t ≡ 6)
        × (get_market_session none t ≡ closed)
        × (get_market_session (some standard_time) t ≡ postmarket))
      ⊎ ((weekday t ≡ 1)
          × (get_market_session none t ≡ postmarket)
          × (get_market_session (some standard_time) t ≡ closed))
unfolding get_market_session get_market_session_fallback
fallback_first_hour t p h (inl w) =
    let (weekend, day, time) = friday_evening t p w h in
    inl (w, rw weekend, rw (day, time) (ground arith))
fallback_first_hour t p h (inr w) =
    let facts = sunday_evening t p w in inr (w, rw facts.0 (ground arith), rw (facts.1 h))
