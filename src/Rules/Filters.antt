-- ===== src/Rules/Filters.antt =====
-- internal/rules/filter_config.go: the volume threshold and the session filter of a condition, and
-- their validation.
pub mod Threshold
use stock_scanner.Prelude.{
  ℕ, String, Bool, true, false, not, ◌&&◌, ◌||◌, Option, none, some, List, [], ◌∷◌, str_eq,
  if◌then◌else◌, Result, ok, err, ◌>>=◌, ◌>>◌, fail_if,
}
use stock_scanner.Float.{Float, zero_f}
use stock_scanner.Int64.{is_neg, is_nonpos, slt}
use stock_scanner.Dict.{Dict, lookup}
use stock_scanner.Models.Rule.{Condition}
use stock_scanner.Rules.Error.{
  RuleError, invalid_calculated_during, invalid_value_type, negative_threshold,
}

module _ {F : Type 0} ⦃fl : Float F⦄ where
  -- vol, ok := metrics[name]; ok && vol > 0 && int64(estimate vol) >= threshold
  unfoldable pub meets : Dict F → ℕ → String → (F → F) → Bool
  unfolding lookup
  meets m threshold name estimate = elim (lookup name m) [
    | none ↦ false
    | some v ↦ fl.lt zero_f v && not (slt (fl.to_int (estimate v)) threshold)
  ]

  -- The loop over `timeframeVolumes`, each with its multiplier
  pub meets_timeframe : Dict F → ℕ → List (String × F) → Bool
  unfolding meets
  meets_timeframe m threshold [] = false
  meets_timeframe m threshold ((name, multiplier) ∷ rest) =
      let later = meets_timeframe m threshold rest in
      if meets m threshold name (λ v. fl.mul v multiplier) then true else later

  abbrev pub timeframe_volumes : List (String × F)
  timeframe_volumes =
      ("volume_60m", fl.decimal 65 1)
      ∷ ("volume_15m", fl.decimal 26 0)
      ∷ ("volume_5m", fl.decimal 78 0)
      ∷ ("volume_1m", fl.decimal 390 0)
      ∷ []

  -- `none` is a nil threshold
  unfoldable pub check_volume_threshold : Dict F → Option ℕ → Bool
  unfolding meets meets_timeframe
  check_volume_threshold m none = true
  check_volume_threshold m (some threshold) =
      if is_nonpos threshold
      then true
      else if meets m threshold "volume_daily" (λ v. v)
      then true
      else if meets m threshold "premarket_volume" (λ v. v)
      then true
      else if meets m threshold "postmarket_volume" (λ v. v)
      then true
      else if meets_timeframe m threshold timeframe_volumes
      then true
      else if meets m threshold "volume_live" (λ v. fl.mul v (fl.decimal 390 0))
      then true
      else false

unfoldable pub check_session_filter : String → String → Bool
check_session_filter current during =
    if str_eq during "" || str_eq during "all"
    then true
    else if str_eq during "premarket"
    then str_eq current "premarket"
    else if str_eq during "market"
    then str_eq current "market"
    else if str_eq during "postmarket"
    then str_eq current "postmarket"
    else true

unfoldable pub valid_session : String → Bool
valid_session s =
    str_eq s "premarket" || str_eq s "market" || str_eq s "postmarket" || str_eq s "all"

abbrev pub negative_option : Option ℕ → Bool
negative_option none = false
negative_option (some t) = is_neg t

unfoldable pub validate_filter_config : {F : Type 0} → Condition F → Result RuleError (Unit {0})
unfolding valid_session
validate_filter_config c = do
  fail_if (not (str_eq c.calculated_during "") && not (valid_session c.calculated_during))
      invalid_calculated_during
  fail_if (not (str_eq c.value_type "") && not (str_eq c.value_type "$" || str_eq c.value_type "%"))
      invalid_value_type
  fail_if (negative_option c.volume_threshold) negative_threshold
