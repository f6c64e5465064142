-- ===== src/Scanner/MetricCache.antt =====
-- internal/scanner/metric_cache.go: the metrics that a state keeps for a short time.
-- `required` is `none` for a nil map.
pub mod Freshness
use stock_scanner.Prelude.{
  ℕ, ◌+◌, ◌-◌, String, Bool, true, false, not, ◌&&◌, ◌||◌, Option, none, some, List, [], ◌∷◌, ltb,
  if◌then◌else◌, ◌==◌, is_empty,
}
use stock_scanner.Int64.{is_nonpos}
use stock_scanner.Dict.{Dict, has, get_or}
use stock_scanner.Scanner.State.{SymbolState}

abbrev pub requested : Option (Dict Bool) → String → Bool
requested none k = true
requested (some required) k = get_or false k required

module _ {F : Type 0} where
  -- A required metric is not in the cache.
  abbrev pub misses : Dict F → Dict Bool → Bool
  misses cached [] = false
  misses cached ((metric, _) ∷ rest) = not (has metric cached) || misses cached rest

  abbrev pub misses_any : Dict F → Option (Dict Bool) → Bool
  misses_any cached none = false
  misses_any cached (some required) = misses cached required

  pub only_requested : Option (Dict Bool) → Dict F → Dict F
  only_requested required [] = []
  only_requested required ((k, v) ∷ rest) =
      let later = only_requested required rest in
      if requested required k then (k, v) ∷ later else later

  -- getCachedMetrics, whose two readings of the clock are `now` and `now'`
  unfoldable pub get_cached_metrics :
      SymbolState F → ℕ → ℕ → Option (Dict Bool) → ℕ → Option (Dict F)
  unfolding only_requested has
  get_cached_metrics st now now' required max_age =
      if is_empty st.cached_metrics || st.cache_timestamp == 0
      then none
      else if not (st.cache_invalidation == 0) && ltb st.cache_invalidation now
      then none
      else if not (is_nonpos max_age) && ltb max_age (now' - st.cache_timestamp)
      then none
      else if misses_any st.cached_metrics required
      then none
      else some (only_requested required st.cached_metrics)

  unfoldable pub set_cached_metrics : SymbolState F → ℕ → Dict F → ℕ → SymbolState F
  set_cached_metrics st now metrics max_age = record st {
    cached_metrics = metrics;
    cache_timestamp = now;
    cache_invalidation = if is_nonpos max_age then st.cache_invalidation else now + max_age;
  }
