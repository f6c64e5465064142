-- ===== src/Indicators/SymbolState.antt =====
-- pkg/indicator/state.go: the calculators and the recent bars of one symbol. Each method runs under the
-- state's lock. `S` is the state of a calculator; `now` is the clock's reading.
pub mod Rehydration
use stock_scanner.Prelude.{
  ℕ, String, Bool, true, false, not, Option, none, some, List, [], ◌∷◌, ◌++◌, str_eq, if◌then◌else◌,
  ltb, length, drop, Result, ok, err,
}
use stock_scanner.Prelude.Options.{last}
use stock_scanner.Float.{Float, zero_f}
use stock_scanner.Dict.{Dict, lookup, insert, remove}
use stock_scanner.Models.Market.{Bar1m}
use stock_scanner.Scanner.State.{push_bounded}
use stock_scanner.Indicators.Calculator.{IndicatorError, Calculator}

pub record SymbolState (F : Type 0) (S : Type 0) : Type 0 where
  pub symbol : String
  pub calculators : Dict S
  pub bars : List (Bar1m F)
  pub max_bars : ℕ
  pub last_update : ℕ

unfoldable pub new_symbol_state : {F S : Type 0} → String → ℕ → SymbolState F S
new_symbol_state symbol max_bars = record {
  symbol = symbol;
  calculators = [];
  bars = [];
  max_bars = max_bars;
  last_update = 0;
}

-- for _, calc := range s.calculators { calc.Reset() }
unfoldable pub reset_calculators : {S : Type 0} → (S → S) → Dict S → Dict S
reset_calculators reset [] = []
reset_calculators reset ((name, c) ∷ rest) = (name, reset c) ∷ reset_calculators reset rest

abbrev pub last_timestamp : {F : Type 0} → Option (Bar1m F) → ℕ → ℕ
last_timestamp none before = before
last_timestamp (some b) before = b.timestamp

module _ {F S : Type 0} ⦃calc : Calculator F S⦄ where
  unfoldable pub add_calculator : S → SymbolState F S → SymbolState F S
  unfolding insert
  add_calculator c st = record st { calculators = insert (calc.name c) c st.calculators }

  unfoldable pub remove_calculator : String → SymbolState F S → SymbolState F S
  unfolding remove
  remove_calculator name st = record st { calculators = remove name st.calculators }

  -- for _, calc := range s.calculators { calc.Update(bar) }
  unfoldable pub update_calculators : Bar1m F → Dict S → Dict S
  update_calculators b [] = []
  update_calculators b ((name, c) ∷ rest) =
      (name, (calc.update (some b) c).1) ∷ update_calculators b rest

  -- The window and the calculators take a bar of this symbol.
  unfoldable pub take_bar : Bar1m F → SymbolState F S → SymbolState F S
  unfolding push_bounded update_calculators
  take_bar b st = record st {
    bars = push_bounded st.max_bars st.bars b;
    calculators = update_calculators b st.calculators;
  }

  unfoldable pub update_state : ℕ → Option (Bar1m F) → SymbolState F S → SymbolState F S
  unfolding take_bar
  update_state now none st = st
  update_state now (some b) st =
      if not (str_eq b.symbol st.symbol) then st else record (take_bar b st) { last_update = now }

  unfoldable pub reset_state : SymbolState F S → SymbolState F S
  unfolding reset_calculators
  reset_state st = record st {
    bars = [];
    calculators = reset_calculators calc.reset st.calculators;
    last_update = 0;
  }

  -- The loop of Rehydrate
  unfoldable pub take_bars : List (Bar1m F) → SymbolState F S → SymbolState F S
  unfolding take_bar
  take_bars [] st = st
  take_bars (b ∷ bs) st =
      take_bars bs (if not (str_eq b.symbol st.symbol) then st else take_bar b st)

  unfoldable pub rehydrate : List (Bar1m F) → SymbolState F S → SymbolState F S
  unfolding take_bars reset_calculators
  rehydrate bars st =
      let emptied = record st {
        bars = [];
        calculators = reset_calculators calc.reset st.calculators;
      } in
      record (take_bars bars emptied) { last_update = last_timestamp (last bars) st.last_update }

  -- A ready calculator's value joins, if it gives one.
  abbrev add_value : String → S → Dict F → Dict F
  add_value name c values =
      if calc.is_ready c
      then elim (calc.value c) [ ok v ↦ insert name v values | err e ↦ values ]
      else values

  unfoldable pub collect_values : Dict F → Dict S → Dict F
  unfolding insert
  collect_values values [] = values
  collect_values values ((name, c) ∷ rest) = collect_values (add_value name c values) rest

  unfoldable pub get_all_values : SymbolState F S → Dict F
  unfolding collect_values
  get_all_values st = collect_values [] st.calculators

module _ {F S : Type 0} ⦃fl : Float F⦄ ⦃calc : Calculator F S⦄ where
  -- A name that is not found reads as 0 without an error.
  unfoldable pub get_value : String → SymbolState F S → Result IndicatorError F
  unfolding lookup
  get_value name st = elim (lookup name st.calculators) [ none ↦ ok zero_f | some c ↦ calc.value c ]
