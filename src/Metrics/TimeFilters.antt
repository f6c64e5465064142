-- ===== src/Metrics/TimeFilters.antt =====
-- internal/metrics/time_filters.go. `eastern` is the wall clock of New York, as in
-- Scanner/Session.antt. Its offset changes on Sundays only, and those return 0 here: on other days
-- the time since 9:30 is the difference of the wall clocks.
pub mod Sessions
use stock_scanner.Prelude.{
  ℕ, ◌+◌, ◌-◌, ◌*◌, ◌/◌, ◌%◌, String, Option, some, none, [], not, ltb, leb, ◌==◌, if◌then◌else◌,
}
use stock_scanner.Prelude.Options.{◌>>=◌, ◌>>◌, require}
use stock_scanner.Float.{Float}
use stock_scanner.Scanner.Session.{is_weekend}
use stock_scanner.Metrics.{MetricComputer}

-- time.Date of the wall clock's day, at a number of minutes since midnight
abbrev pub at_minute : ℕ → ℕ → ℕ
at_minute wall m = wall - wall % 86400000000000 + m * 60000000000

-- int(t.Sub(marketOpen).Minutes()), where `t` is not before
abbrev pub minutes_between : ℕ → ℕ → ℕ
minutes_between start t = (t - start) / 60000000000

unfoldable pub minutes_since_market_open : Option (ℕ → ℕ) → ℕ → ℕ
unfolding is_weekend
minutes_since_market_open none t =
    if ltb t (at_minute t 870) then 0 else minutes_between (at_minute t 870) t
minutes_since_market_open (some eastern) t =
    if is_weekend (eastern t)
    then 0
    else if ltb (eastern t) (at_minute (eastern t) 570)
    then 0
    else minutes_between (at_minute (eastern t) 570) (eastern t)

-- The last tick's time, else the last update's, else the clock's
unfoldable pub reference_time : ℕ → ℕ → ℕ → ℕ
reference_time now last_tick_time last_update =
    if not (last_tick_time == 0)
    then last_tick_time
    else if not (last_update == 0)
    then last_update
    else now

-- The computers that wait for a source of data compute nothing.
abbrev placeholder : {F : Type 0} → String → MetricComputer F
placeholder name = record { name = name; dependencies = []; compute = λ now s. none }

module _ {F : Type 0} where
  unfoldable pub minutes_since_news_computer : MetricComputer F
  minutes_since_news_computer = placeholder "minutes_since_news"

  unfoldable pub hours_since_news_computer : MetricComputer F
  hours_since_news_computer = placeholder "hours_since_news"

  unfoldable pub days_since_news_computer : MetricComputer F
  days_since_news_computer = placeholder "days_since_news"

  unfoldable pub days_until_earnings_computer : MetricComputer F
  days_until_earnings_computer = placeholder "days_until_earnings"

module _ {F : Type 0} ⦃fl : Float F⦄ where
  -- if minutes <= 0 { return 0, false }
  abbrev positive_minutes : ℕ → Option F
  positive_minutes minutes = do require (not (leb minutes 0)); some (fl.of_int minutes)

  unfoldable pub minutes_in_market_computer : Option (ℕ → ℕ) → MetricComputer F
  unfolding minutes_since_market_open reference_time
  minutes_in_market_computer eastern = record {
    name = "minutes_in_market";
    dependencies = [];
    compute = λ now s.
        positive_minutes
          (minutes_since_market_open eastern (reference_time now s.last_tick_time s.last_update));
  }
