-- ===== src/Indicators/RelativeVolume/Resets.antt =====
-- pkg/indicator: Reset of each of the indicators forgets what it has seen.
use stock_scanner.Prelude.{
  Result, ◌≡◌, refl, ap, ◌∙◌, Bool, true, false, not, Option, none, some, if◌then◌else◌,
}
use stock_scanner.Float.{Float, zero_f}
use stock_scanner.Models.Market.{Bar1m}
use stock_scanner.Indicators.Calculator.{IndicatorError, IsResettable}
use stock_scanner.Indicators.Windows.{
  Windowed, slide, reset_windowed, update_vwap, update_volume_average, update_price_change,
}
use stock_scanner.Indicators.Windows.InWindow.{
  vwap_step-slide, average_step-slide, change_step-slide,
}
use stock_scanner.Indicators.RelativeVolume.{
  RelativeVolume, update_relative_volume, reset_relative_volume, Indicator, vwap, volume_average,
  price_change, relative_volume, indicator_calculator, update_indicator, reset_indicator, relate,
}

-- What holds of both branches
if-both :
    {A B : Type 0} (f : A → B) (t : Bool) (x y : A) (z : B)
    → f x ≡ z
    → f y ≡ z
    → f (if t then x else y) ≡ z
if-both f true x y z p q = p
if-both f false x y z p q = q

module _ {F : Type 0} where
  reset-slide :
      (b : Bar1m F) (v : Windowed F) (t : Bool)
      → reset_windowed (record (slide b v) { ready = t }) ≡ reset_windowed v
  unfolding reset_windowed slide
  reset-slide b v t = refl

module _ {F : Type 0} ⦃fl : Float F⦄ where
  reset-update_vwap :
      (o : Option (Bar1m F)) (v : Windowed F)
      → reset_windowed (update_vwap o v).1 ≡ reset_windowed v
  unfolding update_vwap
  reset-update_vwap none v = refl
  reset-update_vwap (some b) v =
      ap (λ u. reset_windowed u) (vwap_step-slide b v) ∙ reset-slide b v true

  reset-update_volume_average :
      (o : Option (Bar1m F)) (v : Windowed F)
      → reset_windowed (update_volume_average o v).1 ≡ reset_windowed v
  unfolding update_volume_average
  reset-update_volume_average none v = refl
  reset-update_volume_average (some b) v =
      ap (λ u. reset_windowed u) (average_step-slide b v) ∙ reset-slide b v true

  reset-update_price_change :
      (o : Option (Bar1m F)) (v : Windowed F)
      → reset_windowed (update_price_change o v).1 ≡ reset_windowed v
  unfolding update_price_change
  reset-update_price_change none v = refl
  reset-update_price_change (some b) v =
      ap (λ u. reset_windowed u) (change_step-slide b v) ∙ reset-slide b v _

  reset-relate :
      (b : Bar1m F) (r : RelativeVolume F)
      → reset_relative_volume (relate b r).1 ≡ reset_relative_volume r
  unfolding reset_relative_volume
  reset-relate b r =
      if-both (λ (u : Result IndicatorError F × RelativeVolume F). reset_relative_volume u.1)
        (not r.volume_avg.ready) _ _ _ refl
        (if-both (λ (u : Result IndicatorError F × RelativeVolume F). reset_relative_volume u.1) _ _
          _ _ refl refl)

  reset-update_relative_volume :
      (o : Option (Bar1m F)) (r : RelativeVolume F)
      → reset_relative_volume (update_relative_volume o r).1 ≡ reset_relative_volume r
  unfolding update_relative_volume reset_relative_volume
  reset-update_relative_volume none r = refl
  reset-update_relative_volume (some b) r =
      reset-relate b (record r { volume_avg = (update_volume_average (some b) r.volume_avg).1 })
      ∙ ap
          (λ (v : Windowed F). record r {
            volume_avg = v;
            last_value = zero_f;
            last_bar = none;
            ready = false;
          })
          (reset-update_volume_average (some b) r.volume_avg)

  instance pub indicator-IsResettable : IsResettable F (Indicator F)
  indicator-IsResettable = record { reset-update = λ o s. each o s }
    where
      each :
          (o : Option (Bar1m F)) (s : Indicator F)
          → reset_indicator (update_indicator o s).1 ≡ reset_indicator s
      each o (vwap v) = ap (λ u. vwap u) (reset-update_vwap o v)
      each o (volume_average v) = ap (λ u. volume_average u) (reset-update_volume_average o v)
      each o (price_change v) = ap (λ u. price_change u) (reset-update_price_change o v)
      each o (relative_volume r) = ap (λ u. relative_volume u) (reset-update_relative_volume o r)
