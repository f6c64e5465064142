-- ===== src/Scanner/State.antt =====
-- internal/scanner/state.go: the state that the scanner keeps for each symbol. Each method runs
-- under the locks of the manager and of the state. `now` is the clock's reading, `eastern` the
-- time zone (see Session.antt). A tick's timestamp is in a location whose offset is a whole
-- number of minutes, so its minute starts where the instant's does.
pub mod Ring
pub mod Bars
pub mod Sessions
use stock_scanner.Prelude.{
  ℕ, ◌+◌, ◌-◌, ◌%◌, String, Bool, true, false, ◌||◌, ◌&&◌, not, Option, none, some, List, [], ◌∷◌,
  ◌++◌, map, ltb, if◌then◌else◌, ◌==◌, length, drop,
}
use stock_scanner.Float.{Float, zero_f}
use stock_scanner.Int64.{add, is_nonpos}
use stock_scanner.Dict.{Dict, lookup, insert, remove, get_or}
use stock_scanner.Models.Market.{Tick, Bar1m, LiveBar, new_live_bar, update}
use stock_scanner.Scanner.Session.{
  MarketSession, premarket, market, postmarket, closed, same_session, get_market_session,
}

pub record SymbolState (F : Type 0) : Type 0 where
  pub symbol : String
  pub live_bar : Option (LiveBar F)
  pub last_final_bars : List (Bar1m F)
  pub indicators : Dict F
  pub last_tick_time : ℕ
  pub last_update : ℕ
  pub current_session : MarketSession
  pub session_start_time : ℕ
  pub yesterday_close : F
  pub today_open : F
  pub today_close : F
  pub premarket_volume : ℕ
  pub market_volume : ℕ
  pub postmarket_volume : ℕ
  pub trade_count : ℕ
  pub trade_count_history : List ℕ
  pub candle_directions : Dict (List Bool)
  pub cached_metrics : Dict F
  pub cache_timestamp : ℕ
  pub cache_invalidation : ℕ

-- The metric registry is without state of its own.
pub record StateManager (F : Type 0) : Type 0 where
  pub states : Dict (SymbolState F)
  pub max_final_bars : ℕ

unfoldable pub new_state_manager : {F : Type 0} → ℕ → StateManager F
new_state_manager max_final_bars = record {
  states = [];
  max_final_bars = if is_nonpos max_final_bars then 200 else max_final_bars;
}

-- append, then drop the oldest entry if there are more than `n`
unfoldable pub push_bounded {ℓ} : {A : Type ℓ} → ℕ → List A → A → List A
push_bounded n xs x = let ys = xs ++ x ∷ [] in if ltb n (length ys) then drop 1 ys else ys

-- time.Date of the tick's year to minute
abbrev pub minute_start : ℕ → ℕ
minute_start t = t - t % 60000000000

module _ {F : Type 0} where
  unfoldable pub invalidate_metric_cache : SymbolState F → SymbolState F
  invalidate_metric_cache st = record st {
    cached_metrics = [];
    cache_timestamp = 0;
    cache_invalidation = 0;
  }

  unfoldable pub update_session_volume : SymbolState F → ℕ → MarketSession → SymbolState F
  update_session_volume st volume premarket = record st {
    premarket_volume = add st.premarket_volume volume;
  }
  update_session_volume st volume market = record st { market_volume = add st.market_volume volume }
  update_session_volume st volume postmarket = record st {
    postmarket_volume = add st.postmarket_volume volume;
  }
  update_session_volume st volume closed = st

  -- The loop of UpdateIndicators
  pub merge : Dict F → Dict F → Dict F
  merge m [] = m
  merge m ((k, v) ∷ rest) = merge (insert k v m) rest

  unfoldable pub apply_indicators : ℕ → Dict F → SymbolState F → SymbolState F
  unfolding merge
  apply_indicators now values st = record st {
    indicators = merge st.indicators values;
    last_update = now;
  }

  unfoldable pub update_candle_direction : SymbolState F → String → Bool → SymbolState F
  update_candle_direction st timeframe is_green =
      let directions = get_or [] timeframe st.candle_directions ++ is_green ∷ [] in
      let kept =
        if ltb 100 (length directions)
        then drop (length directions - 100) directions
        else directions in
      record st { candle_directions = insert timeframe kept st.candle_directions }

module _ {F : Type 0} ⦃fl : Float F⦄ where
  unfoldable pub new_symbol_state : String → SymbolState F
  new_symbol_state symbol = record {
    symbol = symbol;
    live_bar = none;
    last_final_bars = [];
    indicators = [];
    last_tick_time = 0;
    last_update = 0;
    current_session = closed;
    session_start_time = 0;
    yesterday_close = zero_f;
    today_open = zero_f;
    today_close = zero_f;
    premarket_volume = 0;
    market_volume = 0;
    postmarket_volume = 0;
    trade_count = 0;
    trade_count_history = [];
    candle_directions = [];
    cached_metrics = [];
    cache_timestamp = 0;
    cache_invalidation = 0;
  }

  -- The state that GetOrCreateState gives: it is put back under its key by the operations below.
  unfoldable pub state_of : StateManager F → String → SymbolState F
  state_of sm symbol = get_or (new_symbol_state symbol) symbol sm.states

  unfoldable pub get_or_create_state : StateManager F → String → SymbolState F × StateManager F
  get_or_create_state sm symbol =
      let st = state_of sm symbol in (st, record sm { states = insert symbol st sm.states })

  -- The volumes that a transition resets
  unfoldable pub reset_volumes : MarketSession → MarketSession → SymbolState F → SymbolState F
  reset_volumes old market st =
      if same_session old premarket then record st { market_volume = 0 } else st
  reset_volumes old postmarket st =
      if same_session old market then record st { postmarket_volume = 0 } else st
  reset_volumes old premarket st = record st {
    premarket_volume = 0;
    market_volume = 0;
    postmarket_volume = 0;
    yesterday_close = if fl.lt zero_f st.today_close then st.today_close else st.yesterday_close;
  }
  reset_volumes old closed st = st

  unfoldable pub handle_session_transition : SymbolState F → MarketSession → ℕ → SymbolState F
  unfolding reset_volumes
  handle_session_transition st session t =
      let moved = record st { current_session = session; session_start_time = t } in
      record (reset_volumes st.current_session session moved) { trade_count = 0 }

  -- The guard before it: a session that does not change is no transition.
  unfoldable pub enter_session : SymbolState F → MarketSession → ℕ → SymbolState F
  unfolding handle_session_transition same_session
  enter_session st session t =
      if same_session session st.current_session then st else handle_session_transition st session t

  unfoldable pub live_bar_for : Option (LiveBar F) → String → ℕ → LiveBar F
  live_bar_for none symbol t = new_live_bar symbol (minute_start t)
  live_bar_for (some lb) symbol t =
      if lb.timestamp == minute_start t then lb else new_live_bar symbol (minute_start t)

  -- UpdateLiveBar on the state of the symbol, for a tick of this session
  unfoldable pub apply_tick : ℕ → MarketSession → String → Tick F → SymbolState F → SymbolState F
  unfolding enter_session live_bar_for invalidate_metric_cache update_session_volume
  apply_tick now session symbol t st =
      let entered = enter_session st session t.timestamp in
      let barred = record entered {
        live_bar = some (update (live_bar_for entered.live_bar symbol t.timestamp) t);
        last_tick_time = t.timestamp;
        last_update = now;
      } in
      let cleared = invalidate_metric_cache barred in
      update_session_volume (record cleared { trade_count = add cleared.trade_count 1 }) t.size
        session

  unfoldable pub update_live_bar :
      Option (ℕ → ℕ) → StateManager F → ℕ → String → Option (Tick F) → StateManager F
  update_live_bar eastern sm now symbol none = sm
  update_live_bar eastern sm now symbol (some t) =
      let session = get_market_session eastern t.timestamp in
      record sm {
        states = insert symbol (apply_tick now session symbol t (state_of sm symbol)) sm.states;
      }

  -- Today's open and close
  unfoldable pub track_prices : MarketSession → Bar1m F → SymbolState F → SymbolState F
  unfolding same_session
  track_prices session b st = record st {
    today_open = if fl.eq st.today_open zero_f then b.open_price else st.today_open;
    today_close =
        if same_session session market
          || (same_session session postmarket && fl.eq st.today_close zero_f)
        then b.close
        else st.today_close;
  }

  abbrev clear_live_bar : Option (LiveBar F) → ℕ → Option (LiveBar F)
  clear_live_bar none t = none
  clear_live_bar (some lb) t = if lb.timestamp == t then none else some lb

  -- UpdateFinalizedBar on the state of the bar's symbol
  unfoldable pub apply_bar : ℕ → ℕ → MarketSession → Bar1m F → SymbolState F → SymbolState F
  unfolding enter_session track_prices update_candle_direction invalidate_metric_cache push_bounded
  apply_bar max now session b st =
      let entered = enter_session st session b.timestamp in
      let priced = track_prices session b entered in
      let directed = update_candle_direction priced "1m" (fl.lt b.open_price b.close) in
      let counted = record directed {
        trade_count_history = push_bounded max directed.trade_count_history directed.trade_count;
        trade_count = 0;
      } in
      let cleared = invalidate_metric_cache counted in
      record cleared {
        last_final_bars = push_bounded max cleared.last_final_bars b;
        live_bar = clear_live_bar cleared.live_bar b.timestamp;
        last_update = now;
      }

  unfoldable pub update_finalized_bar :
      Option (ℕ → ℕ) → StateManager F → ℕ → Option (Bar1m F) → StateManager F
  update_finalized_bar eastern sm now none = sm
  update_finalized_bar eastern sm now (some b) =
      let session = get_market_session eastern b.timestamp in
      record sm {
        states =
            insert b.symbol (apply_bar sm.max_final_bars now session b (state_of sm b.symbol))
              sm.states;
      }

  unfoldable pub update_indicators : StateManager F → ℕ → String → Dict F → StateManager F
  update_indicators sm now symbol values = record sm {
    states = insert symbol (apply_indicators now values (state_of sm symbol)) sm.states;
  }

module _ {F : Type 0} where
  unfoldable pub get_state : StateManager F → String → Option (SymbolState F)
  get_state sm symbol = lookup symbol sm.states

  unfoldable pub get_symbol_count : StateManager F → ℕ
  get_symbol_count sm = length sm.states

  unfoldable pub remove_symbol : StateManager F → String → StateManager F
  remove_symbol sm symbol = record sm { states = remove symbol sm.states }

  unfoldable pub clear : StateManager F → StateManager F
  clear sm = record sm { states = [] }
