-- ===== src/Scanner/Session.antt =====
-- internal/scanner/session.go: the market session of an instant. The time zone database is not part
-- of the program: `eastern` is what time.LoadLocation gives for America/New_York, the wall clock
-- of an instant (in nanoseconds, like the instant), or `none` where it fails.
pub mod Fallback
use stock_scanner.Prelude.{
  ℕ, ◌+◌, ◌*◌, ◌/◌, ◌%◌, Bool, true, false, ◌&&◌, ◌||◌, Option, none, some, leb, ltb, if◌then◌else◌,
  ◌==◌,
}

pub data MarketSession : Type 0 where
  premarket market postmarket closed : MarketSession

-- ==
unfoldable pub same_session : MarketSession → MarketSession → Bool
same_session premarket premarket = true
same_session market market = true
same_session postmarket postmarket = true
same_session closed closed = true
same_session _ _ = false

-- Of a wall clock: Weekday, Hour and Minute. Day 0 of the zero time is a Monday; Sunday is 0.
abbrev pub weekday : ℕ → ℕ
weekday wall = (wall / 86400000000000 + 1) % 7

abbrev pub hour : ℕ → ℕ
hour wall = wall / 3600000000000 % 24

abbrev pub minute : ℕ → ℕ
minute wall = wall / 60000000000 % 60

-- Minutes since midnight
unfoldable pub time_of_day : ℕ → ℕ
time_of_day wall = hour wall * 60 + minute wall

unfoldable pub is_weekend : ℕ → Bool
is_weekend wall = (weekday wall == 6) || (weekday wall == 0)

abbrev pub eastern_session : Bool → ℕ → MarketSession
eastern_session weekend minutes =
    if weekend
    then closed
    else if leb 240 minutes && ltb minutes 570
    then premarket
    else if leb 570 minutes && ltb minutes 960
    then market
    else if leb 960 minutes && ltb minutes 1200
    then postmarket
    else closed

abbrev pub utc_session : Bool → ℕ → MarketSession
utc_session weekend minutes =
    if weekend
    then closed
    else if leb 540 minutes && ltb minutes 870
    then premarket
    else if leb 870 minutes && ltb minutes 1260
    then market
    else if leb 1260 minutes || ltb minutes 60
    then postmarket
    else closed

unfoldable pub get_market_session_fallback : ℕ → MarketSession
unfolding time_of_day is_weekend
get_market_session_fallback t = utc_session (is_weekend t) (time_of_day t)

unfoldable pub get_market_session : Option (ℕ → ℕ) → ℕ → MarketSession
get_market_session none t = get_market_session_fallback t
get_market_session (some eastern) t =
    eastern_session (is_weekend (eastern t)) (time_of_day (eastern t))

unfoldable pub is_market_open : Option (ℕ → ℕ) → ℕ → Bool
unfolding same_session
is_market_open eastern t = same_session (get_market_session eastern t) market

unfoldable pub is_pre_market : Option (ℕ → ℕ) → ℕ → Bool
unfolding same_session
is_pre_market eastern t = same_session (get_market_session eastern t) premarket

unfoldable pub is_post_market : Option (ℕ → ℕ) → ℕ → Bool
unfolding same_session
is_post_market eastern t = same_session (get_market_session eastern t) postmarket
