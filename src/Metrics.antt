-- ===== src/Metrics.antt =====
-- internal/metrics/computer.go: the interface of a metric computer, and the readings of a snapshot
-- that the computers share. The snapshot is the scanner's (Scanner/Snapshot.antt), whose fields
-- are those of the struct of the same name here. `now` is what time.Now gives while it computes.
pub mod BarMetrics
pub mod PriceFilters
pub mod RangeFilters
pub mod VolumeFilters
pub mod IndicatorFilters
pub mod ActivityFilters
pub mod TimeFilters
pub mod Registry
use stock_scanner.Prelude.{ℕ, String, Option, some, none, List, [], ◌∷◌}
use stock_scanner.Prelude.Options.{last}
use stock_scanner.Float.{Float}
use stock_scanner.Int64.{add}
use stock_scanner.Models.Market.{Bar1m, LiveBar}
use stock_scanner.Scanner.Snapshot.{SymbolStateSnapshot}

pub record MetricComputer (F : Type 0) : Type 0 where
  pub name : String
  pub dependencies : List String
  pub compute : ℕ → SymbolStateSnapshot F → Option F

module _ {F : Type 0} where
  -- The live bar's `read_live`, else the last finalized bar's `read_bar`
  abbrev pub current :
      {A : Type 0} → (LiveBar F → A) → (Bar1m F → A) → SymbolStateSnapshot F → Option A
  current read_live read_bar s = elim s.live_bar [
    | some lb ↦ some (read_live lb)
    | none ↦ elim (last s.last_final_bars) [ some b ↦ some (read_bar b) | none ↦ none ]
  ]

  -- The price of the computers: a close
  unfoldable pub snapshot_price : SymbolStateSnapshot F → Option F
  snapshot_price = current (λ lb. lb.close) (λ b. b.close)

  unfoldable pub snapshot_volume : SymbolStateSnapshot F → Option ℕ
  snapshot_volume = current (λ lb. lb.volume) (λ b. b.volume)

  -- total += bar.Volume, for each bar
  unfoldable pub add_volumes : ℕ → List (Bar1m F) → ℕ
  add_volumes total [] = total
  add_volumes total (b ∷ bs) = add_volumes (add total b.volume) bs

  -- if snapshot.LiveBar != nil { total += snapshot.LiveBar.Volume }
  abbrev pub add_live_volume : Option (LiveBar F) → ℕ → ℕ
  add_live_volume none total = total
  add_live_volume (some lb) total = add total lb.volume

module _ {F : Type 0} ⦃fl : Float F⦄ where
  abbrev pub hundred : F
  hundred = fl.decimal 100 0

  -- (x / y) * 100.0
  abbrev pub percent : F → F → F
  percent x y = fl.mul (fl.div x y) hundred

  -- ((x - y) / y) * 100.0
  abbrev pub percent_change : F → F → F
  percent_change x y = percent (fl.sub x y) y
