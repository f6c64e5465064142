-- ===== src/Indicators/Windows.antt =====
-- pkg/indicator/vwap.go, volume.go (VolumeAverage), price_change.go and utils.go: the indicators over
-- a window of time. The three structs have the same fields. A duration and a time are counts of
-- nanoseconds, and a cutoff does not lie before Go's zero time.
pub mod InWindow
use stock_scanner.Prelude.{
  ℕ, suc, ◌+◌, ◌-◌, ◌/◌, String, Bool, true, false, not, Option, none, some, List, [], ◌∷◌, ◌++◌,
  str_append, decimal_text, if◌then◌else◌, ltb, leb, ◌==◌, length, Result, ok, err, ◌>>=◌, ◌>>◌,
  fail_if,
}
use stock_scanner.Prelude.Options.{last}
use stock_scanner.Float.{Float, zero_f}
use stock_scanner.Int64.{add, is_nonpos}
use stock_scanner.Models.Market.{Bar1m}
use stock_scanner.Metrics.{percent_change, add_volumes}
use stock_scanner.Indicators.Calculator.{
  IndicatorError, nil_bar, not_ready, window_not_positive, Calculator, IsResettable,
}

pub record Windowed (F : Type 0) : Type 0 where
  pub window : ℕ
  pub name : String
  pub bars : List (Bar1m F)
  pub ready : Bool
  pub processed : ℕ

-- int(d.Minutes()) of a positive duration
abbrev pub minutes_of : ℕ → ℕ
minutes_of d = d / 60000000000

unfoldable pub format_duration : ℕ → String
format_duration d =
    if ltb (minutes_of d) 60
    then str_append (decimal_text (minutes_of d)) "m"
    else if ltb (minutes_of d / 60) 24
    then str_append (decimal_text (minutes_of d / 60)) "h"
    else str_append (decimal_text (minutes_of d / 60 / 24)) "d"

module _ {F : Type 0} where
  abbrev new_windowed : (String → String) → ℕ → Result IndicatorError (Windowed F)
  new_windowed name_of window = do
    fail_if (is_nonpos window) window_not_positive
    ok (record {
      window = window;
      name = name_of (format_duration window);
      bars = [];
      ready = false;
      processed = 0;
    })

  unfoldable pub new_vwap : ℕ → Result IndicatorError (Windowed F)
  unfolding format_duration
  new_vwap = new_windowed (λ d. str_append "vwap_" d)

  unfoldable pub new_volume_average : ℕ → Result IndicatorError (Windowed F)
  unfolding format_duration
  new_volume_average = new_windowed (λ d. str_append "volume_avg_" d)

  unfoldable pub new_price_change : ℕ → Result IndicatorError (Windowed F)
  unfolding format_duration
  new_price_change = new_windowed (λ d. str_append "price_change_" (str_append d "_pct"))

  -- The bars that are not older than the cutoff
  unfoldable pub filter_bars_by_time : ℕ → List (Bar1m F) → List (Bar1m F)
  filter_bars_by_time cutoff [] = []
  filter_bars_by_time cutoff (b ∷ bs) =
      let rest = filter_bars_by_time cutoff bs in if leb cutoff b.timestamp then b ∷ rest else rest

  -- The new bar joins, and those outside the window leave.
  unfoldable pub slide : Bar1m F → Windowed F → Windowed F
  unfolding filter_bars_by_time
  slide b v = record v {
    bars = filter_bars_by_time (b.timestamp - v.window) (v.bars ++ b ∷ []);
    processed = suc v.processed;
  }

  unfoldable pub reset_windowed : Windowed F → Windowed F
  reset_windowed v = record v { bars = []; ready = false; processed = 0 }

  -- WindowSize, with the least size that the indicator gives
  unfoldable pub window_size : ℕ → Windowed F → ℕ
  window_size least v = if ltb (minutes_of v.window) 1 then least else minutes_of v.window

module _ {F : Type 0} ⦃fl : Float F⦄ where
  -- Update, for an indicator that needs `least` bars
  abbrev update_windowed :
      ℕ
      → (List (Bar1m F) → F)
      → Option (Bar1m F)
      → Windowed F
      → Result IndicatorError F × Windowed F
  update_windowed least calculate none v = (err nil_bar, v)
  update_windowed least calculate (some b) v =
      let slid = slide b v in
      if leb least (length slid.bars)
      then (ok (calculate slid.bars), record slid { ready = true })
      else (ok zero_f, record slid { ready = false })

  abbrev value_windowed : (List (Bar1m F) → F) → Windowed F → Result IndicatorError F
  value_windowed calculate v = if not v.ready then err not_ready else ok (calculate v.bars)

  -- Σ typical price * volume
  unfoldable pub total_price_volume : F → List (Bar1m F) → F
  total_price_volume total [] = total
  total_price_volume total (b ∷ bs) =
      let typical_price = fl.div (fl.add (fl.add b.high b.low) b.close) (fl.decimal 3 0) in
      total_price_volume (fl.add total (fl.mul typical_price (fl.of_int b.volume))) bs

  unfoldable pub calculate_vwap : List (Bar1m F) → F
  unfolding total_price_volume add_volumes
  calculate_vwap bars =
      if add_volumes 0 bars == 0
      then zero_f
      else fl.div (total_price_volume zero_f bars) (fl.of_int (add_volumes 0 bars))

  unfoldable pub calculate_average : List (Bar1m F) → F
  unfolding add_volumes
  calculate_average [] = zero_f
  calculate_average (b ∷ bs) =
      fl.div (fl.of_int (add_volumes 0 (b ∷ bs))) (fl.of_int (length (b ∷ bs)))

  unfoldable pub calculate_change : List (Bar1m F) → F
  calculate_change [] = zero_f
  calculate_change (oldest ∷ []) = zero_f
  calculate_change (oldest ∷ b ∷ bs) = elim (last (b ∷ bs)) [
    | none ↦ zero_f
    | some newest ↦
        if fl.eq oldest.close zero_f then zero_f else percent_change newest.close oldest.close
  ]

  unfoldable pub update_vwap : Option (Bar1m F) → Windowed F → Result IndicatorError F × Windowed F
  unfolding slide calculate_vwap
  update_vwap = update_windowed 1 calculate_vwap

  unfoldable pub vwap_value : Windowed F → Result IndicatorError F
  unfolding calculate_vwap
  vwap_value = value_windowed calculate_vwap

  unfoldable pub update_volume_average :
      Option (Bar1m F) → Windowed F → Result IndicatorError F × Windowed F
  unfolding slide calculate_average
  update_volume_average = update_windowed 1 calculate_average

  unfoldable pub volume_average_value : Windowed F → Result IndicatorError F
  unfolding calculate_average
  volume_average_value = value_windowed calculate_average

  unfoldable pub update_price_change :
      Option (Bar1m F) → Windowed F → Result IndicatorError F × Windowed F
  unfolding slide calculate_change
  update_price_change = update_windowed 2 calculate_change

  unfoldable pub price_change_value : Windowed F → Result IndicatorError F
  unfolding calculate_change
  price_change_value = value_windowed calculate_change
