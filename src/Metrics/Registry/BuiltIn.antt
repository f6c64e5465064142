-- ===== src/Metrics/Registry/BuiltIn.antt =====
-- internal/metrics/registry.go: the computers that registerBuiltInMetrics registers, in its order.
-- `eastern` is the wall clock of New York.
use stock_scanner.Prelude.{ℕ, Option, List, [], ◌∷◌}
use stock_scanner.Float.{Float}
use stock_scanner.Metrics.{MetricComputer}
use stock_scanner.Metrics.BarMetrics.{
  close_computer, high_computer, low_computer, open_computer, price_change_computer, price_computer,
  volume_computer, volume_live_computer, vwap_computer, vwap_live_computer,
}
use stock_scanner.Metrics.PriceFilters.{
  change_computer, change_from_close_computer, change_from_close_pct_computer,
  change_from_close_postmarket_computer, change_from_close_postmarket_pct_computer,
  change_from_close_premarket_computer, change_from_close_premarket_pct_computer,
  change_from_open_computer, change_from_open_pct_computer, gap_from_close_computer,
  gap_from_close_pct_computer,
}
use stock_scanner.Metrics.RangeFilters.{
  daily_position_in_range_computer, daily_range_computer, daily_range_percentage_computer,
  position_in_range_computer, range_computer, range_percentage_computer, relative_range_computer,
}
use stock_scanner.Metrics.VolumeFilters.{
  absolute_volume_computer, average_volume_computer, daily_dollar_volume_computer,
  daily_volume_computer, dollar_volume_computer, postmarket_volume_computer,
  premarket_volume_computer, relative_volume_computer, relative_volume_same_time_computer,
}
use stock_scanner.Metrics.IndicatorFilters.{
  atrp_computer, ma_distance_computer, vwap_distance_computer, vwap_distance_pct_computer,
}
use stock_scanner.Metrics.ActivityFilters.{consecutive_candles_computer, trade_count_computer}
use stock_scanner.Metrics.TimeFilters.{
  days_since_news_computer, days_until_earnings_computer, hours_since_news_computer,
  minutes_in_market_computer, minutes_since_news_computer,
}
use stock_scanner.Metrics.Registry.{Registry, empty_registry, register_all}

module _ {F : Type 0} ⦃fl : Float F⦄ where
  unfoldable pub built_in_metrics : Option (ℕ → ℕ) → List (MetricComputer F)
  unfolding absolute_volume_computer atrp_computer average_volume_computer change_computer
      change_from_close_computer change_from_close_pct_computer
      change_from_close_postmarket_computer change_from_close_postmarket_pct_computer
      change_from_close_premarket_computer change_from_close_premarket_pct_computer
      change_from_open_computer change_from_open_pct_computer close_computer
      consecutive_candles_computer daily_dollar_volume_computer daily_position_in_range_computer
      daily_range_computer daily_range_percentage_computer daily_volume_computer
      days_since_news_computer days_until_earnings_computer dollar_volume_computer
      gap_from_close_computer gap_from_close_pct_computer high_computer hours_since_news_computer
      low_computer ma_distance_computer minutes_in_market_computer minutes_since_news_computer
      open_computer position_in_range_computer postmarket_volume_computer premarket_volume_computer
      price_change_computer price_computer range_computer range_percentage_computer
      relative_range_computer relative_volume_computer relative_volume_same_time_computer
      trade_count_computer volume_computer volume_live_computer vwap_computer vwap_distance_computer
      vwap_distance_pct_computer vwap_live_computer
  built_in_metrics eastern =
      price_computer
      ∷ volume_live_computer
      ∷ vwap_live_computer
      ∷ close_computer
      ∷ open_computer
      ∷ high_computer
      ∷ low_computer
      ∷ volume_computer
      ∷ vwap_computer
      ∷ price_change_computer "price_change_1m_pct" 2
      ∷ price_change_computer "price_change_2m_pct" 3
      ∷ price_change_computer "price_change_5m_pct" 6
      ∷ price_change_computer "price_change_15m_pct" 16
      ∷ price_change_computer "price_change_30m_pct" 31
      ∷ price_change_computer "price_change_60m_pct" 61
      ∷ change_computer "change_1m" 2
      ∷ change_computer "change_2m" 3
      ∷ change_computer "change_5m" 6
      ∷ change_computer "change_15m" 16
      ∷ change_computer "change_30m" 31
      ∷ change_computer "change_60m" 61
      ∷ change_from_close_computer
      ∷ change_from_close_pct_computer
      ∷ change_from_close_premarket_computer
      ∷ change_from_close_premarket_pct_computer
      ∷ change_from_close_postmarket_computer
      ∷ change_from_close_postmarket_pct_computer
      ∷ change_from_open_computer
      ∷ change_from_open_pct_computer
      ∷ gap_from_close_computer
      ∷ gap_from_close_pct_computer
      ∷ postmarket_volume_computer
      ∷ premarket_volume_computer
      ∷ absolute_volume_computer "volume_1m" 1
      ∷ absolute_volume_computer "volume_2m" 2
      ∷ absolute_volume_computer "volume_5m" 5
      ∷ absolute_volume_computer "volume_10m" 10
      ∷ absolute_volume_computer "volume_15m" 15
      ∷ absolute_volume_computer "volume_30m" 30
      ∷ absolute_volume_computer "volume_60m" 60
      ∷ daily_volume_computer
      ∷ dollar_volume_computer "dollar_volume_1m" 1
      ∷ dollar_volume_computer "dollar_volume_5m" 5
      ∷ dollar_volume_computer "dollar_volume_15m" 15
      ∷ dollar_volume_computer "dollar_volume_60m" 60
      ∷ daily_dollar_volume_computer
      ∷ range_computer "range_2m" 2
      ∷ range_computer "range_5m" 5
      ∷ range_computer "range_10m" 10
      ∷ range_computer "range_15m" 15
      ∷ range_computer "range_30m" 30
      ∷ range_computer "range_60m" 60
      ∷ daily_range_computer
      ∷ range_percentage_computer "range_pct_2m" 2
      ∷ range_percentage_computer "range_pct_5m" 5
      ∷ range_percentage_computer "range_pct_10m" 10
      ∷ range_percentage_computer "range_pct_15m" 15
      ∷ range_percentage_computer "range_pct_30m" 30
      ∷ range_percentage_computer "range_pct_60m" 60
      ∷ daily_range_percentage_computer
      ∷ position_in_range_computer "position_in_range_2m" 2
      ∷ position_in_range_computer "position_in_range_5m" 5
      ∷ position_in_range_computer "position_in_range_15m" 15
      ∷ position_in_range_computer "position_in_range_30m" 30
      ∷ position_in_range_computer "position_in_range_60m" 60
      ∷ daily_position_in_range_computer
      ∷ relative_range_computer
      ∷ atrp_computer "atrp_14_1m" "atr_14"
      ∷ atrp_computer "atrp_14_5m" "atr_14"
      ∷ atrp_computer "atrp_14_daily" "atr_14"
      ∷ vwap_distance_computer "vwap_dist_5m" "vwap_5m"
      ∷ vwap_distance_computer "vwap_dist_15m" "vwap_15m"
      ∷ vwap_distance_computer "vwap_dist_1h" "vwap_1h"
      ∷ vwap_distance_pct_computer "vwap_dist_5m_pct" "vwap_5m"
      ∷ vwap_distance_pct_computer "vwap_dist_15m_pct" "vwap_15m"
      ∷ vwap_distance_pct_computer "vwap_dist_1h_pct" "vwap_1h"
      ∷ ma_distance_computer "ma_dist_sma20_daily_pct" "sma_20"
      ∷ ma_distance_computer "ma_dist_sma10_daily_pct" "sma_10"
      ∷ ma_distance_computer "ma_dist_sma200_daily_pct" "sma_200"
      ∷ ma_distance_computer "ma_dist_ema20_1m_pct" "ema_20"
      ∷ ma_distance_computer "ma_dist_ema9_1m_pct" "ema_9"
      ∷ ma_distance_computer "ma_dist_ema9_5m_pct" "ema_9"
      ∷ ma_distance_computer "ma_dist_ema9_15m_pct" "ema_9"
      ∷ ma_distance_computer "ma_dist_ema21_15m_pct" "ema_21"
      ∷ ma_distance_computer "ma_dist_ema50_15m_pct" "ema_50"
      ∷ ma_distance_computer "ma_dist_ema9_60m_pct" "ema_9"
      ∷ ma_distance_computer "ma_dist_ema21_60m_pct" "ema_21"
      ∷ ma_distance_computer "ma_dist_ema50_daily_pct" "ema_50"
      ∷ trade_count_computer "trade_count_1m" 1
      ∷ trade_count_computer "trade_count_2m" 2
      ∷ trade_count_computer "trade_count_5m" 5
      ∷ trade_count_computer "trade_count_15m" 15
      ∷ trade_count_computer "trade_count_60m" 60
      ∷ consecutive_candles_computer "consecutive_candles_1m" "1m"
      ∷ consecutive_candles_computer "consecutive_candles_2m" "1m"
      ∷ consecutive_candles_computer "consecutive_candles_5m" "1m"
      ∷ consecutive_candles_computer "consecutive_candles_15m" "1m"
      ∷ consecutive_candles_computer "consecutive_candles_daily" "1m"
      ∷ average_volume_computer "avg_volume_5d" 5
      ∷ average_volume_computer "avg_volume_10d" 10
      ∷ average_volume_computer "avg_volume_20d" 20
      ∷ relative_volume_computer "relative_volume_1m" 10
      ∷ relative_volume_computer "relative_volume_2m" 10
      ∷ relative_volume_computer "relative_volume_5m" 10
      ∷ relative_volume_computer "relative_volume_15m" 10
      ∷ relative_volume_computer "relative_volume_daily" 10
      ∷ relative_volume_same_time_computer
      ∷ minutes_in_market_computer eastern
      ∷ minutes_since_news_computer
      ∷ hours_since_news_computer
      ∷ days_since_news_computer
      ∷ days_until_earnings_computer
      ∷ []

  -- NewRegistry
  unfoldable pub new_registry : Option (ℕ → ℕ) → Registry F
  unfolding register_all built_in_metrics
  new_registry eastern = register_all empty_registry (built_in_metrics eastern)
