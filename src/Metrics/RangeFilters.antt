-- ===== src/Metrics/RangeFilters.antt =====
-- internal/metrics/range_filters.go
pub mod Bounds
use stock_scanner.Prelude.{
  ℕ, String, Option, some, none, List, [], ◌∷◌, not, leb, length, if◌then◌else◌,
}
use stock_scanner.Prelude.Options.{◌>>=◌, ◌>>◌, require, first, last_n}
use stock_scanner.Float.{Float, zero_f}
use stock_scanner.Dict.{lookup}
use stock_scanner.Models.Market.{Bar1m, LiveBar}
use stock_scanner.Scanner.Snapshot.{SymbolStateSnapshot}
use stock_scanner.Metrics.{MetricComputer, snapshot_price, percent, percent_change}

pub record Range (F : Type 0) : Type 0 where
  pub high : F
  pub low : F

module _ {F : Type 0} ⦃fl : Float F⦄ where
  -- if high > r.high { .. }; if low < r.low { .. }
  unfoldable pub widen : Range F → F → F → Range F
  widen r high low = record {
    high = if fl.lt r.high high then high else r.high;
    low = if fl.lt low r.low then low else r.low;
  }

  -- The loop over the bars
  unfoldable pub widen_all : Range F → List (Bar1m F) → Range F
  unfolding widen
  widen_all r [] = r
  widen_all r (b ∷ bs) = widen_all (widen r b.high b.low) bs

  -- From the first of the last bars; the loop begins behind it.
  unfoldable pub window_range : List (Bar1m F) → Option (Range F)
  unfolding widen_all
  window_range [] = none
  window_range (b ∷ bs) = some (widen_all (record { high = b.high; low = b.low }) bs)

  -- The ranges of the day loop over the first bar too.
  unfoldable pub daily_range : List (Bar1m F) → Option (Range F)
  unfolding widen_all
  daily_range [] = none
  daily_range (b ∷ bs) = some (widen_all (record { high = b.high; low = b.low }) (b ∷ bs))

  unfoldable pub widen_live : Option (LiveBar F) → Range F → Range F
  unfolding widen
  widen_live none r = r
  widen_live (some lb) r = widen r lb.high lb.low

  abbrev pub width : Range F → F
  width r = fl.sub r.high r.low

  -- (high - low) / low * 100.0, for a positive low
  abbrev range_percentage : Range F → Option F
  range_percentage r = do require (not (fl.le r.low zero_f)); some (percent_change r.high r.low)

  abbrev pub position : F → Range F → Option F
  position price r = do
    require (not (fl.le r.high r.low))
    some (percent (fl.sub price r.low) (fl.sub r.high r.low))

  unfoldable pub range_computer : String → ℕ → MetricComputer F
  unfolding window_range
  range_computer name bar_offset = record {
    name = name;
    dependencies = [];
    compute = λ now s. do
      require (leb bar_offset (length s.last_final_bars))
      r ← window_range (last_n bar_offset s.last_final_bars)
      some (width r);
  }

  unfoldable pub range_percentage_computer : String → ℕ → MetricComputer F
  unfolding window_range
  range_percentage_computer name bar_offset = record {
    name = name;
    dependencies = [];
    compute = λ now s. do
      require (leb bar_offset (length s.last_final_bars))
      r ← window_range (last_n bar_offset s.last_final_bars)
      range_percentage r;
  }

  -- DailyRangeComputer's Compute, which RelativeRangeComputer calls
  unfoldable pub todays_range : SymbolStateSnapshot F → Option F
  unfolding daily_range widen_live
  todays_range s = do
    bars ← daily_range s.last_final_bars
    some (width (widen_live s.live_bar bars))

  unfoldable pub daily_range_computer : MetricComputer F
  unfolding todays_range
  daily_range_computer = record {
    name = "range_today";
    dependencies = [];
    compute = λ now s. todays_range s;
  }

  unfoldable pub daily_range_percentage_computer : MetricComputer F
  unfolding daily_range widen_live
  daily_range_percentage_computer = record {
    name = "range_pct_today";
    dependencies = [];
    compute = λ now s. do
      bars ← daily_range s.last_final_bars
      range_percentage (widen_live s.live_bar bars);
  }

  unfoldable pub position_in_range_computer : String → ℕ → MetricComputer F
  unfolding window_range widen_live snapshot_price
  position_in_range_computer name bar_offset = record {
    name = name;
    dependencies = [];
    compute = λ now s. do
      require (leb bar_offset (length s.last_final_bars))
      price ← snapshot_price s
      bars ← window_range (last_n bar_offset s.last_final_bars)
      position price (widen_live s.live_bar bars);
  }

  unfoldable pub daily_position_in_range_computer : MetricComputer F
  unfolding daily_range widen_live snapshot_price
  daily_position_in_range_computer = record {
    name = "position_in_range_today";
    dependencies = [];
    compute = λ now s. do
      price ← snapshot_price s
      bars ← daily_range s.last_final_bars
      position price (widen_live s.live_bar bars);
  }

  unfoldable pub relative_range_computer : MetricComputer F
  unfolding todays_range lookup
  relative_range_computer = record {
    name = "relative_range_pct";
    dependencies = "atr_14" ∷ [];
    compute = λ now s. do
      today_range ← todays_range s
      require (not (fl.le today_range zero_f))
      atr ← lookup "atr_14" s.indicators
      require (not (fl.le atr zero_f))
      some (percent today_range atr);
  }
