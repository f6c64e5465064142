-- ===== src/Models/Market.antt =====
-- internal/models/models.go: Tick, Bar1m, LiveBar, and their methods.
-- A time is a count of nanoseconds since Go's zero time (1 January of year 1), which is 0.
pub mod Ohlc
use stock_scanner.Prelude.{
  ℕ, String, ◌≡◌, Bool, true, false, ◌||◌, List, [], ◌∷◌, str_eq, if◌then◌else◌, ◌==◌, Result, ok,
  err, ◌>>=◌, ◌>>◌, fail_if,
}
use stock_scanner.Float.{Float, zero_f}
use stock_scanner.Int64.{add, is_neg}

pub data ModelError : Type 0 where
  invalid_symbol invalid_price invalid_timestamp invalid_bar invalid_volume : ModelError
  invalid_rule_id invalid_rule_name no_conditions invalid_metric invalid_operator : ModelError
  invalid_alert_id : ModelError

pub record Tick (F : Type 0) : Type 0 where
  pub symbol : String
  pub price : F
  pub size : ℕ
  pub timestamp : ℕ
  pub kind : String
  pub bid : F
  pub ask : F

pub record Bar1m (F : Type 0) : Type 0 where
  pub symbol : String
  pub timestamp : ℕ
  pub open_price : F
  pub high : F
  pub low : F
  pub close : F
  pub volume : ℕ
  pub vwap : F

pub record LiveBar (F : Type 0) : Type 0 where
  pub symbol : String
  pub timestamp : ℕ
  pub open_price : F
  pub high : F
  pub low : F
  pub close : F
  pub volume : ℕ
  pub vwap_num : F
  pub vwap_denom : F

module _ {F : Type 0} ⦃fl : Float F⦄ where
  unfoldable pub validate_tick : Tick F → Result ModelError (Unit {0})
  validate_tick t = do
    fail_if (str_eq t.symbol "") invalid_symbol
    fail_if (fl.le t.price zero_f) invalid_price
    fail_if (t.timestamp == 0) invalid_timestamp

  unfoldable pub validate_bar : Bar1m F → Result ModelError (Unit {0})
  validate_bar b = do
    fail_if (str_eq b.symbol "") invalid_symbol
    fail_if (b.timestamp == 0) invalid_timestamp
    fail_if (fl.lt b.high b.low) invalid_bar
    fail_if (is_neg b.volume) invalid_volume

  unfoldable pub to_bar1m : LiveBar F → Bar1m F
  to_bar1m lb = record {
    symbol = lb.symbol;
    timestamp = lb.timestamp;
    open_price = lb.open_price;
    high = lb.high;
    low = lb.low;
    close = lb.close;
    volume = lb.volume;
    vwap = if fl.lt zero_f lb.vwap_denom then fl.div lb.vwap_num lb.vwap_denom else zero_f;
  }

  -- &models.LiveBar{Symbol: symbol, Timestamp: minuteStart}
  unfoldable pub new_live_bar : String → ℕ → LiveBar F
  new_live_bar s start = record {
    symbol = s;
    timestamp = start;
    open_price = zero_f;
    high = zero_f;
    low = zero_f;
    close = zero_f;
    volume = 0;
    vwap_num = zero_f;
    vwap_denom = zero_f;
  }

  -- The first test of Update: a bar with no opening price takes the tick's.
  pub start_prices : LiveBar F → F → LiveBar F
  start_prices lb p =
      if fl.eq lb.open_price zero_f then record lb { open_price = p; high = p; low = p } else lb

  pub raise_high : LiveBar F → F → LiveBar F
  raise_high lb p = if fl.lt lb.high p then record lb { high = p } else lb

  pub lower_low : LiveBar F → F → LiveBar F
  lower_low lb p = if fl.lt p lb.low then record lb { low = p } else lb

  unfoldable pub update : LiveBar F → Tick F → LiveBar F
  unfolding start_prices raise_high lower_low
  update lb t =
      let ranged = lower_low (raise_high (start_prices lb t.price) t.price) t.price in
      record ranged {
        close = t.price;
        volume = add lb.volume t.size;
        vwap_num = fl.add lb.vwap_num (fl.mul t.price (fl.of_int t.size));
        vwap_denom = fl.add lb.vwap_denom (fl.of_int t.size);
      }

  unfoldable pub update_all : LiveBar F → List (Tick F) → LiveBar F
  update_all lb [] = lb
  update_all lb (t ∷ ts) = update_all (update lb t) ts
