-- ===== src/Tests/Computers.antt =====
-- The metrics and the indicators on a snapshot of two bars.
use stock_scanner.Prelude.{
  inl, inr, ℕ, ◌≡◌, refl, arith, true, false, none, some, [], ◌∷◌, All, ok, err, length, leb,
  if◌then◌else◌,
}
use stock_scanner.Prelude.Options.{last_n}
use stock_scanner.Float.Fixed.{fixed, fixed-IsOrdered}
use stock_scanner.Dict.{lookup}
use stock_scanner.Rules.Compiler.{evaluate_all, enabled_rules}
use stock_scanner.Rules.Resolver.{resolve_metric, new_metric_resolver}
use stock_scanner.Rules.Extraction.{extract_required_metrics}
use stock_scanner.Scanner.Session.{is_weekend, time_of_day, get_market_session}
use stock_scanner.Scanner.State.{new_symbol_state}
use stock_scanner.Scanner.Snapshot.{SymbolStateSnapshot, symbol_snapshot}
use stock_scanner.Metrics.Registry.{compute_all, compute_metrics}
use stock_scanner.Metrics.Registry.BuiltIn.{built_in_metrics, new_registry}
use stock_scanner.Metrics.Registry.Laws.{or_indicator}
use stock_scanner.Metrics.Registry.Standard.{new_registry-IsRegistry, compute_all-new_registry}
use stock_scanner.Metrics.Registry.Sufficient.{compute_metrics-sufficient}
use stock_scanner.Metrics.RangeFilters.{Range, width, range_computer}
use stock_scanner.Metrics.RangeFilters.Bounds.{IsRangeOf, range_computer-IsRangeOf}
use stock_scanner.Metrics.TimeFilters.{minutes_since_market_open}
use stock_scanner.Metrics.TimeFilters.Sessions.{
  SessionMinutes, minutes_since_market_open-SessionMinutes,
}
use stock_scanner.Metrics.ActivityFilters.{backwards, consecutive}
use stock_scanner.Metrics.ActivityFilters.Runs.{IsRun, consecutive-IsRun}
use stock_scanner.Indicators.Windows.{
  Windowed, reset_windowed, vwap_value, volume_average_value, price_change_value, calculate_vwap,
  calculate_average, calculate_change,
}
use stock_scanner.Indicators.Windows.InWindow.{
  run_steps, vwap_step, average_step, change_step, window_bars, windows_lem,
}
use stock_scanner.Indicators.Calculator.{not_ready}
use stock_scanner.Indicators.RelativeVolume.{Indicator, vwap, indicator_calculator}
use stock_scanner.Indicators.RelativeVolume.Resets.{indicator-IsResettable}
use stock_scanner.Indicators.SymbolState as Engine
use stock_scanner.Indicators.SymbolState.{rehydrate, reset_state}
use stock_scanner.Indicators.SymbolState.Rehydration.{
  update_states, bars_of, timeless, rehydrate-update_states,
}
use stock_scanner.Toplists.{get_metric_name, get_metric_value}
use stock_scanner.Toplists.Silent.{silent_toplists}
use stock_scanner.Tests.Data.{bar_at, strong}

abbrev two_bars : SymbolStateSnapshot ℕ
two_bars = record (symbol_snapshot "AAPL" (new_symbol_state "AAPL")) {
  last_final_bars = bar_at 60000000000 ∷ bar_at 120000000000 ∷ [];
  indicators = ("rsi_14", 650000) ∷ [];
}

compute_all-new_registry_example :
    All
      (λ c.
        lookup c.name (compute_all (new_registry none) 7 two_bars)
        ≡ or_indicator (c.compute 7 two_bars) (lookup c.name two_bars.indicators))
      (built_in_metrics none)
unfolding symbol_snapshot
compute_all-new_registry_example =
    compute_all-new_registry none (new_registry none) 7 two_bars (new_registry-IsRegistry none).0
      (λ k. refl) (tt, tt)

compute_metrics-sufficient_example :
    All
      (λ rule.
        evaluate_all
          (resolve_metric new_metric_resolver)
          (compute_metrics (new_registry none) 7 two_bars (extract_required_metrics (strong ∷ [])))
          0
          rule.conditions
        ≡ evaluate_all
            (resolve_metric new_metric_resolver)
            (compute_all (new_registry none) 7 two_bars)
            0
            rule.conditions)
      (enabled_rules (strong ∷ []))
compute_metrics-sufficient_example =
    compute_metrics-sufficient (new_registry none) 7 two_bars (strong ∷ [])
      (new_registry-IsRegistry none).0 (tt, tt)

range_computer-IsRangeOf_example :
    (r : Range ℕ) × ((range_computer "range_2m" 2).compute 7 two_bars ≡ some (width r))
    × IsRangeOf r (last_n 2 two_bars.last_final_bars)
range_computer-IsRangeOf_example =
    range_computer-IsRangeOf fixed-IsOrdered "range_2m" 2 7 two_bars (omega arith) (omega arith)
      ((refl, refl), ((refl, refl), tt))

minutes_since_market_open-SessionMinutes_example :
    SessionMinutes
      (get_market_session none 54000000000000)
      (minutes_since_market_open none 54000000000000)
unfolding is_weekend time_of_day
minutes_since_market_open-SessionMinutes_example =
    minutes_since_market_open-SessionMinutes none 54000000000000 (refl, omega arith)

consecutive-IsRun_example :
    IsRun (backwards (false ∷ true ∷ true ∷ [])) (consecutive (false ∷ true ∷ true ∷ []))
consecutive-IsRun_example = consecutive-IsRun (false ∷ true ∷ true ∷ [])

abbrev five_minutes : Windowed ℕ
five_minutes = record {
  window = 300000000000;
  name = "vwap_5m";
  bars = [];
  ready = false;
  processed = 0;
}

windows_lem_example :
    (vwap_value (
        run_steps vwap_step
          (reset_windowed five_minutes)
          (bar_at 60000000000 ∷ bar_at 120000000000 ∷ []))
      ≡ ok (
          calculate_vwap
            (window_bars five_minutes (bar_at 60000000000) (bar_at 120000000000 ∷ []))))
    × (volume_average_value (
          run_steps average_step
            (reset_windowed five_minutes)
            (bar_at 60000000000 ∷ bar_at 120000000000 ∷ []))
        ≡ ok (
            calculate_average
              (window_bars five_minutes (bar_at 60000000000) (bar_at 120000000000 ∷ []))))
    × (price_change_value (
          run_steps change_step
            (reset_windowed five_minutes)
            (bar_at 60000000000 ∷ bar_at 120000000000 ∷ []))
        ≡ (if leb 2
              (length (window_bars five_minutes (bar_at 60000000000) (bar_at 120000000000 ∷ [])))
            then ok (
                calculate_change
                  (window_bars five_minutes (bar_at 60000000000) (bar_at 120000000000 ∷ [])))
            else err not_ready))
windows_lem_example =
    windows_lem five_minutes (bar_at 60000000000) (bar_at 120000000000 ∷ []) (omega arith, tt)

abbrev engine : Engine.SymbolState ℕ (Indicator ℕ)
engine = record {
  symbol = "AAPL";
  calculators = ("vwap_5m", vwap five_minutes) ∷ [];
  bars = [];
  max_bars = 200;
  last_update = 0;
}

rehydrate-update_states_example :
    timeless (
      rehydrate
        (bars_of ((9, bar_at 120000000000) ∷ []))
        (update_states ((7, bar_at 60000000000) ∷ []) engine))
    ≡ timeless (update_states ((9, bar_at 120000000000) ∷ []) (reset_state engine))
rehydrate-update_states_example =
    rehydrate-update_states ((7, bar_at 60000000000) ∷ []) ((9, bar_at 120000000000) ∷ []) engine

silent_toplists_example :
    get_metric_value "volume" "1h" (compute_all (new_registry none) 7 two_bars) ≡ none
unfolding lookup get_metric_name
silent_toplists_example =
    silent_toplists none 7 two_bars "volume" "1h" (inr (inr (inl (refl, refl)))) (tt, tt) refl
