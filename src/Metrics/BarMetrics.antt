-- ===== src/Metrics/BarMetrics.antt =====
-- internal/metrics/bar_metrics.go, live_bar_metrics.go and price_change_metrics.go
use stock_scanner.Prelude.{ℕ, String, some, [], not, leb, length}
use stock_scanner.Prelude.Options.{◌>>=◌, ◌>>◌, require, first, last, last_n}
use stock_scanner.Float.{Float, zero_f}
use stock_scanner.Models.Market.{Bar1m}
use stock_scanner.Metrics.{MetricComputer, percent_change}

module _ {F : Type 0} where
  -- A reading of the last finalized bar
  abbrev pub of_last_bar : String → (Bar1m F → F) → MetricComputer F
  of_last_bar name read = record {
    name = name;
    dependencies = [];
    compute = λ now s. last s.last_final_bars >>= λ b. some (read b);
  }

  unfoldable pub close_computer : MetricComputer F
  close_computer = of_last_bar "close" (λ b. b.close)

  unfoldable pub open_computer : MetricComputer F
  open_computer = of_last_bar "open" (λ b. b.open_price)

  unfoldable pub high_computer : MetricComputer F
  high_computer = of_last_bar "high" (λ b. b.high)

  unfoldable pub low_computer : MetricComputer F
  low_computer = of_last_bar "low" (λ b. b.low)

  unfoldable pub vwap_computer : MetricComputer F
  vwap_computer = of_last_bar "vwap" (λ b. b.vwap)

  unfoldable pub price_computer : MetricComputer F
  price_computer = record {
    name = "price";
    dependencies = [];
    compute = λ now s. s.live_bar >>= λ lb. some lb.close;
  }

module _ {F : Type 0} ⦃fl : Float F⦄ where
  unfoldable pub volume_computer : MetricComputer F
  volume_computer = of_last_bar "volume" (λ b. fl.of_int b.volume)

  unfoldable pub volume_live_computer : MetricComputer F
  volume_live_computer = record {
    name = "volume_live";
    dependencies = [];
    compute = λ now s. s.live_bar >>= λ lb. some (fl.of_int lb.volume);
  }

  unfoldable pub vwap_live_computer : MetricComputer F
  vwap_live_computer = record {
    name = "vwap_live";
    dependencies = [];
    compute = λ now s. do
      lb ← s.live_bar
      require (not (fl.eq lb.vwap_denom zero_f))
      some (fl.div lb.vwap_num lb.vwap_denom);
  }

  -- An offset of 0 would index past the end of the bars; the registry gives none.
  unfoldable pub price_change_computer : String → ℕ → MetricComputer F
  price_change_computer name bar_offset = record {
    name = name;
    dependencies = [];
    compute = λ now s. do
      require (leb bar_offset (length s.last_final_bars))
      current_bar ← last s.last_final_bars
      past_bar ← first (last_n bar_offset s.last_final_bars)
      require (not (fl.le past_bar.close zero_f))
      some (percent_change current_bar.close past_bar.close);
  }
