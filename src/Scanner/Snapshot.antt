-- ===== src/Scanner/Snapshot.antt =====
-- internal/scanner/state.go: the snapshot that the scan loop works on. It is a copy of every field
-- of the states but the metric cache.
use stock_scanner.Prelude.{ℕ, String, Bool, Option, List, [], ◌∷◌, ◌++◌}
use stock_scanner.Dict.{Dict, insert}
use stock_scanner.Models.Market.{Bar1m, LiveBar}
use stock_scanner.Scanner.Session.{MarketSession}
use stock_scanner.Scanner.State.{SymbolState, StateManager}

pub record SymbolStateSnapshot (F : Type 0) : Type 0 where
  pub symbol : String
  pub live_bar : Option (LiveBar F)
  pub last_final_bars : List (Bar1m F)
  pub indicators : Dict F
  pub last_tick_time : ℕ
  pub last_update : ℕ
  pub current_session : MarketSession
  pub session_start_time : ℕ
  pub yesterday_close : F
  pub today_open : F
  pub today_close : F
  pub premarket_volume : ℕ
  pub market_volume : ℕ
  pub postmarket_volume : ℕ
  pub trade_count : ℕ
  pub trade_count_history : List ℕ
  pub candle_directions : Dict (List Bool)

pub record StateSnapshot (F : Type 0) : Type 0 where
  pub symbols : List String
  pub states : Dict (SymbolStateSnapshot F)

module _ {F : Type 0} where
  unfoldable pub symbol_snapshot : String → SymbolState F → SymbolStateSnapshot F
  symbol_snapshot symbol st = record {
    symbol = symbol;
    live_bar = st.live_bar;
    last_final_bars = st.last_final_bars;
    indicators = st.indicators;
    last_tick_time = st.last_tick_time;
    last_update = st.last_update;
    current_session = st.current_session;
    session_start_time = st.session_start_time;
    yesterday_close = st.yesterday_close;
    today_open = st.today_open;
    today_close = st.today_close;
    premarket_volume = st.premarket_volume;
    market_volume = st.market_volume;
    postmarket_volume = st.postmarket_volume;
    trade_count = st.trade_count;
    trade_count_history = st.trade_count_history;
    candle_directions = st.candle_directions;
  }

  -- The loop of Snapshot over the manager's map
  unfoldable pub add_snapshots : Dict (SymbolState F) → StateSnapshot F → StateSnapshot F
  unfolding insert
  add_snapshots [] snapshot = snapshot
  add_snapshots ((symbol, st) ∷ rest) snapshot = add_snapshots rest (record {
    symbols = snapshot.symbols ++ symbol ∷ [];
    states = insert symbol (symbol_snapshot symbol st) snapshot.states;
  })

  unfoldable pub take_snapshot : StateManager F → StateSnapshot F
  unfolding add_snapshots
  take_snapshot sm = add_snapshots sm.states (record { symbols = []; states = [] })
