-- ===== src/Metrics/ActivityFilters.antt =====
-- internal/metrics/activity_filters.go
pub mod Runs
use stock_scanner.Prelude.{
  ℕ, suc, String, Bool, true, false, Option, some, none, List, [], ◌∷◌, ◌++◌, leb, length,
  if◌then◌else◌,
}
use stock_scanner.Prelude.Options.{◌>>=◌, last_n}
use stock_scanner.Float.{Float}
use stock_scanner.Int64.{add, sub}
use stock_scanner.Dict.{lookup}
use stock_scanner.Metrics.{MetricComputer}

-- total += history[i], for each i
unfoldable pub add_counts : ℕ → List ℕ → ℕ
add_counts total [] = total
add_counts total (n ∷ ns) = add_counts (add total n) ns

-- directions[i] == lastDirection
abbrev pub same_direction : Bool → Bool → Bool
same_direction true b = b
same_direction false true = false
same_direction false false = true

-- The loop that counts backwards, on the directions before the last with the latest of them first
unfoldable pub count_same : Bool → ℕ → List Bool → ℕ
count_same last_direction count [] = count
count_same last_direction count (d ∷ ds) =
    let more = count_same last_direction (suc count) ds in
    if same_direction d last_direction then more else count

-- The indices from the last to 0
unfoldable pub backwards : List Bool → List Bool
backwards [] = []
backwards (d ∷ ds) = backwards ds ++ d ∷ []

-- The count, and whether it is of green candles
unfoldable pub consecutive : List Bool → Option (Bool × ℕ)
unfolding backwards count_same
consecutive directions = elim (backwards directions) [
  | [] ↦ none
  | d ∷ ds ↦ some (d, count_same d 1 ds)
]

module _ {F : Type 0} ⦃fl : Float F⦄ where
  unfoldable pub trade_count_computer : String → ℕ → MetricComputer F
  unfolding add_counts
  trade_count_computer name bar_offset = record {
    name = name;
    dependencies = [];
    compute = λ now s.
        if leb bar_offset (length s.trade_count_history)
        then some (fl.of_int (add_counts 0 (last_n bar_offset s.trade_count_history)))
        else if leb bar_offset (length s.last_final_bars)
        then some (fl.of_int bar_offset)
        else none;
  }

  unfoldable pub consecutive_candles_computer : String → String → MetricComputer F
  unfolding lookup consecutive
  consecutive_candles_computer name timeframe = record {
    name = name;
    dependencies = [];
    compute = λ now s. do
      directions ← lookup timeframe s.candle_directions
      run ← consecutive directions
      some (fl.of_int (if run.0 then run.1 else sub 0 run.1));
  }
