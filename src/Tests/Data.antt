-- ===== src/Tests/Data.antt =====
-- The ticks, bars and rules of the concrete runs.
use stock_scanner.Prelude.{ℕ, String, true, some, [], ◌∷◌}
use stock_scanner.Models.Market.{Tick, Bar1m}
use stock_scanner.Models.Rule.{Condition, Rule, number}

abbrev pub tick_at : String → ℕ → ℕ → ℕ → Tick ℕ
tick_at s price size t = record {
  symbol = s;
  price = price;
  size = size;
  timestamp = t;
  kind = "trade";
  bid = 0;
  ask = 0;
}

-- Three ticks: two in one minute, one in the next.
abbrev pub first_tick : Tick ℕ
first_tick = tick_at "AAPL" 1500000 100 60000000001

abbrev pub second_tick : Tick ℕ
second_tick = tick_at "AAPL" 1490000 50 60000000002

abbrev pub third_tick : Tick ℕ
third_tick = tick_at "AAPL" 1520000 70 120000000003

abbrev pub bar_at : ℕ → Bar1m ℕ
bar_at t = record {
  symbol = "AAPL";
  timestamp = t;
  open_price = 1500000;
  high = 1510000;
  low = 1490000;
  close = 1505000;
  volume = 1000;
  vwap = 1500000;
}

abbrev pub above_fifty : Condition ℕ
above_fifty = record {
  metric = "rsi_14";
  operator = ">";
  value = number 500000;
  volume_threshold = some 1000;
  calculated_during = "market";
  timeframe = "";
  value_type = "";
}

abbrev pub strong : Rule ℕ
strong = record {
  id = "r1";
  name = "strong";
  description = "";
  conditions = above_fifty ∷ [];
  cooldown = 10;
  enabled = true;
  created_at = 0;
  updated_at = 0;
}
