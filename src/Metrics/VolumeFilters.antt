-- ===== src/Metrics/VolumeFilters.antt =====
-- internal/metrics/volume_filters.go and advanced_volume_filters.go
use stock_scanner.Prelude.{
  ℕ, String, Option, some, none, List, [], ◌∷◌, not, leb, length, is_empty, if◌then◌else◌,
}
use stock_scanner.Prelude.Options.{◌>>=◌, ◌>>◌, require, last_n}
use stock_scanner.Float.{Float, zero_f}
use stock_scanner.Models.Market.{Bar1m, LiveBar}
use stock_scanner.Scanner.Snapshot.{SymbolStateSnapshot}
use stock_scanner.Metrics.{MetricComputer, snapshot_volume, add_volumes, add_live_volume, percent}

module _ {F : Type 0} ⦃fl : Float F⦄ where
  unfoldable pub postmarket_volume_computer : MetricComputer F
  postmarket_volume_computer = record {
    name = "postmarket_volume";
    dependencies = [];
    compute = λ now s. some (fl.of_int s.postmarket_volume);
  }

  unfoldable pub premarket_volume_computer : MetricComputer F
  premarket_volume_computer = record {
    name = "premarket_volume";
    dependencies = [];
    compute = λ now s. some (fl.of_int s.premarket_volume);
  }

  unfoldable pub absolute_volume_computer : String → ℕ → MetricComputer F
  unfolding add_volumes
  absolute_volume_computer name bar_offset = record {
    name = name;
    dependencies = [];
    compute = λ now s. do
      require (leb bar_offset (length s.last_final_bars))
      some (fl.of_int (add_volumes 0 (last_n bar_offset s.last_final_bars)));
  }

  -- VWAP, or the close where there is none, times the volume
  abbrev pub dollar_volume : Bar1m F → F
  dollar_volume b = fl.mul (if fl.le b.vwap zero_f then b.close else b.vwap) (fl.of_int b.volume)

  unfoldable pub add_dollar_volumes : F → List (Bar1m F) → F
  add_dollar_volumes total [] = total
  add_dollar_volumes total (b ∷ bs) = add_dollar_volumes (fl.add total (dollar_volume b)) bs

  abbrev pub add_live_dollar_volume : Option (LiveBar F) → F → F
  add_live_dollar_volume none total = total
  add_live_dollar_volume (some lb) total =
      let price =
        if fl.lt zero_f lb.vwap_denom then fl.div lb.vwap_num lb.vwap_denom else lb.close in
      fl.add total (fl.mul price (fl.of_int lb.volume))

  unfoldable pub dollar_volume_computer : String → ℕ → MetricComputer F
  unfolding add_dollar_volumes
  dollar_volume_computer name bar_offset = record {
    name = name;
    dependencies = [];
    compute = λ now s. do
      require (leb bar_offset (length s.last_final_bars))
      some (add_dollar_volumes zero_f (last_n bar_offset s.last_final_bars));
  }

  -- The volume of all bars and of the live bar
  abbrev pub total_volume : SymbolStateSnapshot F → ℕ
  total_volume s = add_live_volume s.live_bar (add_volumes 0 s.last_final_bars)

  unfoldable pub daily_volume_computer : MetricComputer F
  unfolding add_volumes
  daily_volume_computer = record {
    name = "volume_daily";
    dependencies = [];
    compute = λ now s. some (fl.of_int (total_volume s));
  }

  unfoldable pub daily_dollar_volume_computer : MetricComputer F
  unfolding add_dollar_volumes
  daily_dollar_volume_computer = record {
    name = "dollar_volume_daily";
    dependencies = [];
    compute = λ now s.
        some (add_live_dollar_volume s.live_bar (add_dollar_volumes zero_f s.last_final_bars));
  }

  unfoldable pub average_volume_computer : String → ℕ → MetricComputer F
  unfolding add_volumes
  average_volume_computer name days = record {
    name = name;
    dependencies = [];
    compute = λ now s. do
      require (not (is_empty s.last_final_bars))
      some (fl.div (fl.of_int (total_volume s)) (fl.of_int days));
  }

  -- if x <= 0 { return 0, false }
  abbrev positive : F → Option F
  positive x = do require (not (fl.le x zero_f)); some x

  -- Against the average of the last `bar_offset` bars, whose count is `divisor`
  abbrev relative_to : ℕ → F → SymbolStateSnapshot F → Option F
  relative_to bar_offset divisor s = do
    current_volume ← snapshot_volume s
    require (leb bar_offset (length s.last_final_bars))
    average ←
        positive (fl.div (fl.of_int (add_volumes 0 (last_n bar_offset s.last_final_bars))) divisor)
    some (percent (fl.of_int current_volume) average)

  unfoldable pub relative_volume_computer : String → ℕ → MetricComputer F
  unfolding add_volumes snapshot_volume
  relative_volume_computer name bar_offset = record {
    name = name;
    dependencies = [];
    compute = λ now s. relative_to bar_offset (fl.of_int bar_offset) s;
  }

  unfoldable pub relative_volume_same_time_computer : MetricComputer F
  unfolding add_volumes snapshot_volume
  relative_volume_same_time_computer = record {
    name = "relative_volume_same_time";
    dependencies = [];
    compute = λ now s. relative_to 10 (fl.decimal 10 0) s;
  }
