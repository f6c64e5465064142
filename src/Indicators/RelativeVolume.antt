-- ===== src/Indicators/RelativeVolume.antt =====
-- pkg/indicator/volume.go (RelativeVolume), and the package's own indicators as calculators. Those of
-- techan_adapter.go wrap another library and are not among them.
pub mod Resets
use stock_scanner.Prelude.{
  ℕ, ◌≡◌, refl, String, Bool, true, false, not, Option, none, some, [], str_append, if◌then◌else◌,
  leb, length, Result, ok, err, ◌>>=◌, arith, Bool-cases, inl, inr,
}
use stock_scanner.Float.{Float, zero_f}
use stock_scanner.Models.Market.{Bar1m}
use stock_scanner.Indicators.Calculator.{
  IndicatorError, nil_bar, not_ready, Calculator, IsResettable,
}
use stock_scanner.Indicators.Windows.{
  Windowed, format_duration, new_volume_average, reset_windowed, slide, calculate_average,
  calculate_vwap, calculate_change, update_vwap, vwap_value, update_volume_average,
  volume_average_value, update_price_change, price_change_value,
}

pub record RelativeVolume (F : Type 0) : Type 0 where
  pub volume_avg : Windowed F
  pub name : String
  pub last_value : F
  pub last_bar : Option (Bar1m F)
  pub ready : Bool

module _ {F : Type 0} ⦃fl : Float F⦄ where
  unfoldable pub new_relative_volume : ℕ → Result IndicatorError (RelativeVolume F)
  unfolding format_duration
  new_relative_volume window = do
    average ← new_volume_average window
    ok (record {
      volume_avg = average;
      name = str_append "relative_volume_" (format_duration window);
      last_value = zero_f;
      last_bar = none;
      ready = false;
    })

  -- avgVol, _ := r.volumeAvg.Value()
  abbrev pub value_or_zero : Result IndicatorError F → F
  value_or_zero (ok x) = x
  value_or_zero (err e) = zero_f

  -- What follows the update of the average
  abbrev pub relate : Bar1m F → RelativeVolume F → Result IndicatorError F × RelativeVolume F
  relate b r =
      let average = value_or_zero (volume_average_value r.volume_avg) in
      if not r.volume_avg.ready
      then (ok zero_f, r)
      else if fl.eq average zero_f
      then (ok zero_f, r)
      else (
        ok (fl.div (fl.of_int b.volume) average),
        record r {
          last_value = fl.div (fl.of_int b.volume) average;
          last_bar = some b;
          ready = true;
        },
      )

  unfoldable pub update_relative_volume :
      Option (Bar1m F) → RelativeVolume F → Result IndicatorError F × RelativeVolume F
  unfolding update_volume_average volume_average_value
  update_relative_volume none r = (err nil_bar, r)
  update_relative_volume (some b) r =
      relate b (record r { volume_avg = (update_volume_average (some b) r.volume_avg).1 })

  unfoldable pub relative_volume_value : RelativeVolume F → Result IndicatorError F
  relative_volume_value r = if not r.ready then err not_ready else ok r.last_value

  unfoldable pub reset_relative_volume : RelativeVolume F → RelativeVolume F
  unfolding reset_windowed
  reset_relative_volume r = record r {
    volume_avg = reset_windowed r.volume_avg;
    last_value = zero_f;
    last_bar = none;
    ready = false;
  }

-- The implementations of the interface
pub data Indicator (F : Type 0) : Type 0 where
  vwap volume_average price_change : Windowed F → Indicator F
  relative_volume : RelativeVolume F → Indicator F

module _ {F : Type 0} ⦃fl : Float F⦄ where
  abbrev pub indicator_name : Indicator F → String
  indicator_name (vwap v) = v.name
  indicator_name (volume_average v) = v.name
  indicator_name (price_change v) = v.name
  indicator_name (relative_volume r) = r.name

  abbrev pub update_indicator :
      Option (Bar1m F) → Indicator F → Result IndicatorError F × Indicator F
  update_indicator b (vwap v) = let u = update_vwap b v in (u.0, vwap u.1)
  update_indicator b (volume_average v) =
      let u = update_volume_average b v in (u.0, volume_average u.1)
  update_indicator b (price_change v) = let u = update_price_change b v in (u.0, price_change u.1)
  update_indicator b (relative_volume r) =
      let u = update_relative_volume b r in (u.0, relative_volume u.1)

  abbrev pub indicator_value : Indicator F → Result IndicatorError F
  indicator_value (vwap v) = vwap_value v
  indicator_value (volume_average v) = volume_average_value v
  indicator_value (price_change v) = price_change_value v
  indicator_value (relative_volume r) = relative_volume_value r

  abbrev pub reset_indicator : Indicator F → Indicator F
  reset_indicator (vwap v) = vwap (reset_windowed v)
  reset_indicator (volume_average v) = volume_average (reset_windowed v)
  reset_indicator (price_change v) = price_change (reset_windowed v)
  reset_indicator (relative_volume r) = relative_volume (reset_relative_volume r)

  abbrev pub indicator_ready : Indicator F → Bool
  indicator_ready (vwap v) = v.ready
  indicator_ready (volume_average v) = v.ready
  indicator_ready (price_change v) = v.ready
  indicator_ready (relative_volume r) = r.ready

  instance abbrev pub indicator_calculator : Calculator F (Indicator F)
  indicator_calculator = record {
    name = indicator_name;
    update = update_indicator;
    value = indicator_value;
    reset = reset_indicator;
    is_ready = indicator_ready;
  }
