-- ===== src/Metrics/PriceFilters.antt =====
-- internal/metrics/price_filters.go
use stock_scanner.Prelude.{ℕ, String, Option, some, [], not, ◌||◌, leb, length}
use stock_scanner.Prelude.Options.{◌>>=◌, ◌>>◌, require, first, last, last_n}
use stock_scanner.Float.{Float, zero_f}
use stock_scanner.Scanner.Session.{premarket, postmarket, same_session}
use stock_scanner.Scanner.Snapshot.{SymbolStateSnapshot}
use stock_scanner.Metrics.{MetricComputer, snapshot_price, percent_change}

module _ {F : Type 0} ⦃fl : Float F⦄ where
  unfoldable pub change_computer : String → ℕ → MetricComputer F
  change_computer name bar_offset = record {
    name = name;
    dependencies = [];
    compute = λ now s. do
      require (leb bar_offset (length s.last_final_bars))
      current_bar ← last s.last_final_bars
      past_bar ← first (last_n bar_offset s.last_final_bars)
      some (fl.sub current_bar.close past_bar.close);
  }

  -- The body that the computers below share: the change of the price from a positive reference
  abbrev change_from : (F → F → F) → F → SymbolStateSnapshot F → Option F
  change_from change reference s = do
    require (not (fl.le reference zero_f))
    price ← snapshot_price s
    some (change price reference)

  unfoldable pub change_from_close_computer : MetricComputer F
  unfolding snapshot_price
  change_from_close_computer = record {
    name = "change_from_close";
    dependencies = [];
    compute = λ now s. change_from fl.sub s.yesterday_close s;
  }

  unfoldable pub change_from_close_pct_computer : MetricComputer F
  unfolding snapshot_price
  change_from_close_pct_computer = record {
    name = "change_from_close_pct";
    dependencies = [];
    compute = λ now s. change_from percent_change s.yesterday_close s;
  }

  unfoldable pub change_from_close_premarket_computer : MetricComputer F
  unfolding snapshot_price same_session
  change_from_close_premarket_computer = record {
    name = "change_from_close_premarket";
    dependencies = [];
    compute = λ now s. do
      require (same_session s.current_session premarket)
      change_from fl.sub s.yesterday_close s;
  }

  unfoldable pub change_from_close_premarket_pct_computer : MetricComputer F
  unfolding snapshot_price same_session
  change_from_close_premarket_pct_computer = record {
    name = "change_from_close_premarket_pct";
    dependencies = [];
    compute = λ now s. do
      require (same_session s.current_session premarket)
      change_from percent_change s.yesterday_close s;
  }

  unfoldable pub change_from_close_postmarket_computer : MetricComputer F
  unfolding snapshot_price same_session
  change_from_close_postmarket_computer = record {
    name = "change_from_close_postmarket";
    dependencies = [];
    compute = λ now s. do
      require (same_session s.current_session postmarket)
      change_from fl.sub s.today_close s;
  }

  unfoldable pub change_from_close_postmarket_pct_computer : MetricComputer F
  unfolding snapshot_price same_session
  change_from_close_postmarket_pct_computer = record {
    name = "change_from_close_postmarket_pct";
    dependencies = [];
    compute = λ now s. do
      require (same_session s.current_session postmarket)
      change_from percent_change s.today_close s;
  }

  unfoldable pub change_from_open_computer : MetricComputer F
  unfolding snapshot_price
  change_from_open_computer = record {
    name = "change_from_open";
    dependencies = [];
    compute = λ now s. change_from fl.sub s.today_open s;
  }

  unfoldable pub change_from_open_pct_computer : MetricComputer F
  unfolding snapshot_price
  change_from_open_pct_computer = record {
    name = "change_from_open_pct";
    dependencies = [];
    compute = λ now s. change_from percent_change s.today_open s;
  }

  abbrev gap : (F → F → F) → SymbolStateSnapshot F → Option F
  gap change s = do
    require (not (fl.le s.yesterday_close zero_f || fl.le s.today_open zero_f))
    some (change s.today_open s.yesterday_close)

  unfoldable pub gap_from_close_computer : MetricComputer F
  gap_from_close_computer = record {
    name = "gap_from_close";
    dependencies = [];
    compute = λ now s. gap fl.sub s;
  }

  unfoldable pub gap_from_close_pct_computer : MetricComputer F
  gap_from_close_pct_computer = record {
    name = "gap_from_close_pct";
    dependencies = [];
    compute = λ now s. gap percent_change s;
  }
