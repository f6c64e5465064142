-- ===== src/Metrics/TimeFilters/Sessions.antt =====
-- internal/metrics/time_filters.go against internal/scanner/session.go: the minutes since the market
-- opened, in each session of the market.
use stock_scanner.Prelude.{
  ℕ, ◌-◌, ◌<◌, ◌≤◌, ◌≡◌, refl, Bool, true, false, Option, none, some, ltb, arith, ◌⊎◌, inl,
  if◌then◌else◌,
}
use stock_scanner.Scanner.Session.{
  MarketSession, premarket, market, postmarket, closed, time_of_day, is_weekend, eastern_session,
  get_market_session, get_market_session_fallback, utc_session,
}
use stock_scanner.Metrics.TimeFilters.{at_minute, minutes_between, minutes_since_market_open}

-- The minutes that a session allows
abbrev pub SessionMinutes : MarketSession → ℕ → Type 0
SessionMinutes premarket m = m ≡ 0
SessionMinutes market m = m < 390
SessionMinutes postmarket m = (390 ≤ m) × (m < 630)
SessionMinutes closed m = (m ≡ 0) ⊎ (630 ≤ m)

minutes_lem :
    (eastern : ℕ → ℕ) (t : ℕ)
    → minutes_since_market_open (some eastern) t
      ≡ (if is_weekend (eastern t) then 0 else time_of_day (eastern t) - 570)
unfolding minutes_since_market_open time_of_day is_weekend
minutes_lem eastern t = ground arith

session_minutes :
    (weekend : Bool) (m : ℕ)
    → SessionMinutes (eastern_session weekend m) (if weekend then 0 else m - 570)
session_minutes true m = inl refl
session_minutes false m = ground arith

fallback_minutes_lem :
    (t : ℕ)
    → (if ltb t (at_minute t 870) then 0 else minutes_between (at_minute t 870) t)
      ≡ time_of_day t - 870
unfolding time_of_day
fallback_minutes_lem t = ground arith

day_minutes : (t : ℕ) → time_of_day t < 1440
unfolding time_of_day
day_minutes t = omega arith

utc_minutes : (m : ℕ) → 60 ≤ m → m < 1440 → SessionMinutes (utc_session false m) (m - 870)
utc_minutes m h d = ground arith

fallback_minutes :
    (t : ℕ)
    → is_weekend t ≡ false
    → 60 ≤ time_of_day t
    → SessionMinutes (get_market_session none t) (minutes_since_market_open none t)
unfolding get_market_session get_market_session_fallback minutes_since_market_open
fallback_minutes t w h =
    rw (w, fallback_minutes_lem t) (utc_minutes (time_of_day t) h (day_minutes t))

-- Where the zone of New York is not loaded, the two functions stand on UTC.
abbrev pub IsCovered : Option (ℕ → ℕ) → ℕ → Type 0
IsCovered (some eastern) t = Unit {0}
IsCovered none t = (is_weekend t ≡ false) × (60 ≤ time_of_day t)

-- With the zone of New York loaded, or without it on a weekday from 01:00 UTC on: the minutes since
-- the market opened are 0 before it opens, fewer than 390 while it is open, from 390 to 629
-- after it has closed, and 0 or at least 630 when there is no session.
pub minutes_since_market_open-SessionMinutes :
    (eastern : Option (ℕ → ℕ)) (t : ℕ)
    → IsCovered eastern t
    → SessionMinutes (get_market_session eastern t) (minutes_since_market_open eastern t)
unfolding get_market_session
minutes_since_market_open-SessionMinutes (some eastern) t h =
    rw (minutes_lem eastern t) (session_minutes (is_weekend (eastern t)) (time_of_day (eastern t)))
minutes_since_market_open-SessionMinutes none t h = fallback_minutes t h.0 h.1
