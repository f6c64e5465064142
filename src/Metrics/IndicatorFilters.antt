-- ===== src/Metrics/IndicatorFilters.antt =====
-- internal/metrics/indicator_filters.go
use stock_scanner.Prelude.{String, Option, some, [], ◌∷◌, not, if◌then◌else◌}
use stock_scanner.Prelude.Options.{◌>>=◌, ◌>>◌, require}
use stock_scanner.Float.{Float, zero_f}
use stock_scanner.Dict.{Dict, lookup}
use stock_scanner.Metrics.{MetricComputer, snapshot_price, percent, percent_change}

module _ {F : Type 0} ⦃fl : Float F⦄ where
  -- value, exists := indicators[key]; if !exists || value <= 0 { return 0, false }
  abbrev pub positive_indicator : String → Dict F → Option F
  positive_indicator key indicators = do
    value ← lookup key indicators
    require (not (fl.le value zero_f))
    some value

  -- if x < 0 { x = -x }: of a negative number, -x is the absolute value.
  abbrev unsigned : F → F
  unsigned x = if fl.lt x zero_f then fl.abs x else x

  unfoldable pub atrp_computer : String → String → MetricComputer F
  unfolding lookup snapshot_price
  atrp_computer name atr_key = record {
    name = name;
    dependencies = atr_key ∷ [];
    compute = λ now s. do
      atr ← positive_indicator atr_key s.indicators
      price ← snapshot_price s
      require (not (fl.le price zero_f))
      some (percent atr price);
  }

  unfoldable pub vwap_distance_computer : String → String → MetricComputer F
  unfolding lookup snapshot_price
  vwap_distance_computer name vwap_key = record {
    name = name;
    dependencies = vwap_key ∷ [];
    compute = λ now s. do
      vwap ← positive_indicator vwap_key s.indicators
      price ← snapshot_price s
      some (unsigned (fl.sub price vwap));
  }

  unfoldable pub vwap_distance_pct_computer : String → String → MetricComputer F
  unfolding lookup snapshot_price
  vwap_distance_pct_computer name vwap_key = record {
    name = name;
    dependencies = vwap_key ∷ [];
    compute = λ now s. do
      vwap ← positive_indicator vwap_key s.indicators
      price ← snapshot_price s
      some (unsigned (percent_change price vwap));
  }

  unfoldable pub ma_distance_computer : String → String → MetricComputer F
  unfolding lookup snapshot_price
  ma_distance_computer name ma_key = record {
    name = name;
    dependencies = ma_key ∷ [];
    compute = λ now s. do
      average ← positive_indicator ma_key s.indicators
      price ← snapshot_price s
      some (percent_change price average);
  }
