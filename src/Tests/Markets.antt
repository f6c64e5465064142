-- ===== src/Tests/Markets.antt =====
-- The bars and the state of a symbol, on concrete ticks.
use stock_scanner.Prelude.{ℕ, ◌+◌, ◌%◌, ◌≡◌, refl, true, none, List, [], ◌∷◌, map, All}
use stock_scanner.Float.Fixed.{fixed, fixed-IsOrdered}
use stock_scanner.Int64.{word}
use stock_scanner.Dict.Laws.{lookup-empty}
use stock_scanner.Models.Market.{Tick, LiveBar, new_live_bar, update_all, to_bar1m}
use stock_scanner.Models.Market.Ohlc.{Summarises, update_all-Summarises}
use stock_scanner.Bars.Aggregator.{Aggregator, new_aggregator, set_on_bar_final, run}
use stock_scanner.Bars.Aggregator.Steps.{IsWellFormed, IsAligned, run-IsWellFormed}
use stock_scanner.Bars.Aggregator.Volume.{live_volume, final_volume, accepted, run-volume}
use stock_scanner.Bars.Aggregator.Groups.{bars_so_far, bar_of, groups, valid_ticks_of, run-groups}
use stock_scanner.Scanner.State.{new_state_manager}
use stock_scanner.Scanner.State.Bars as History
use stock_scanner.Scanner.State.Ring.{last_of}
use stock_scanner.Tests.Data.{first_tick, second_tick, third_tick, bar_at}

abbrev three_ticks : List (Tick ℕ)
three_ticks = first_tick ∷ second_tick ∷ third_tick ∷ []

update_all-Summarises_example :
    Summarises
      (update_all (new_live_bar "AAPL" 60000000000) three_ticks)
      first_tick
      (second_tick ∷ third_tick ∷ [])
update_all-Summarises_example =
    update_all-Summarises fixed-IsOrdered "AAPL" 60000000000 first_tick
      (second_tick ∷ third_tick ∷ []) (refl, refl) ((refl, refl), ((refl, refl), tt))

abbrev listening : Aggregator ℕ
listening = record { live_bars = []; on_bar_final = true; on_bar_update = true }

listening-IsWellFormed : IsWellFormed listening
listening-IsWellFormed = record {
  bars = λ k lb e. cc (lookup-empty {V = LiveBar ℕ} k);
  unique = tt;
}

run-IsWellFormed_example :
    IsWellFormed (run listening three_ticks).0 × All IsAligned (run listening three_ticks).1
run-IsWellFormed_example = run-IsWellFormed listening three_ticks listening-IsWellFormed

run-volume_example :
    (live_volume (run listening three_ticks).0.live_bars
        + final_volume (run listening three_ticks).1)
      % word
    ≡ (live_volume listening.live_bars + accepted three_ticks) % word
run-volume_example = run-volume listening three_ticks refl

run-groups_example :
    bars_so_far "AAPL" (run (set_on_bar_final new_aggregator) three_ticks)
    ≡ map (λ g. to_bar1m (bar_of g)) (groups (valid_ticks_of "AAPL" three_ticks))
run-groups_example = run-groups "AAPL" three_ticks

abbrev history : List (History.Event ℕ)
history =
    History.bar 1 (bar_at 60000000000)
    ∷ History.tick 2 "AAPL" third_tick
    ∷ History.bar 3 (bar_at 120000000000)
    ∷ History.bar 4 (bar_at 180000000000)
    ∷ []

run-last_of_example :
    History.kept_bars "AAPL" (History.run none (new_state_manager 2) history)
    ≡ last_of 2 (History.bars_of "AAPL" history)
run-last_of_example = History.run-last_of none 2 history "AAPL" refl
