-- ===== src/Tests/Scans.antt =====
-- The scan loop, the state's sessions and the metric cache, on concrete values.
use stock_scanner.Prelude.{
  String, Bool, ℕ, ◌+◌, ◌*◌, ◌≤◌, ◌≡◌, ◌↔◌, refl, arith, true, false, ◌&&◌, none, some, List, [],
  ◌∷◌, All, ok, err, is_empty, if◌then◌else◌,
}
use stock_scanner.Float.Fixed.{fixed}
use stock_scanner.Int64.{sum}
use stock_scanner.Dict.{Dict, lookup, has, get_or}
use stock_scanner.Rules.Store.{RuleStore, new_rule_store, get_rule}
use stock_scanner.Rules.Store.Keyed.{Op, added, toggled, apply_ops, apply_ops-id}
use stock_scanner.Rules.Compiler.{evaluate_all}
use stock_scanner.Rules.Resolver.{MetricResolver, resolve_metric, new_metric_resolver}
use stock_scanner.Scanner.Cooldown.{new_cooldown_tracker}
use stock_scanner.Scanner.Session.{premarket, market, postmarket}
use stock_scanner.Scanner.State.{
  SymbolState, StateManager, new_symbol_state, apply_tick, apply_bar, apply_indicators,
}
use stock_scanner.Scanner.State.Sessions.{
  Feed, feed_all, feed_all-open, late_bar_volumes, sizes, feed_ticks, day_volumes,
}
use stock_scanner.Scanner.MetricCache.{get_cached_metrics, set_cached_metrics}
use stock_scanner.Scanner.MetricCache.Freshness.{
  is_some, lookup_in, get_cached_metrics-set_cached_metrics, get_cached_metrics_updates,
}
use stock_scanner.Scanner.Emitter.{Env, new_alert_emitter}
use stock_scanner.Scanner.ScanLoop.{
  Cycle, Compute, no_totals, ScanLoop, new_stats, scan_cycle, should_evaluate_rule, already_running,
  start, stop,
}
use stock_scanner.Scanner.ScanLoop.Starting.{start_all, start-start}
use stock_scanner.Scanner.ScanLoop.Defaults.{parse_rule_lem}
use stock_scanner.Rules.Parser.{prepare_rule, parse_rule}
use stock_scanner.Rules.Validation.{validate_rule}
use stock_scanner.Models.Rule.{Rule}
use stock_scanner.Models.Market.{Bar1m}
use stock_scanner.Rules.Error.{nil_rule}
use stock_scanner.Scanner.ScanLoop.Filters.{Passes, should_evaluate_rule-All}
use stock_scanner.Scanner.ScanLoop.Matching.{scan_cycle_counts}
use stock_scanner.Scanner.ScanLoop.Firing.{count_matches}
use stock_scanner.Scanner.ScanLoop.Effects.{IsClock}
use stock_scanner.Scanner.ScanLoop.Invariant.{Spaced}
use stock_scanner.Scanner.ScanLoop.Spacing.{
  Work, updated, scanned, cleaned, work_all, IsKeyedWork, work_all-Spaced,
}
use stock_scanner.Tests.Data.{first_tick, second_tick, third_tick, bar_at, strong}

-- The clock gains a second at each reading; the stream takes every alert.
abbrev env : Env ℕ
env = record {
  clock = λ i. 63000000000000000000 + i * 1000000000;
  uuid = λ i. "u";
  accepts = λ messages a. true;
}

abbrev resolver : MetricResolver ℕ
resolver = resolve_metric new_metric_resolver

abbrev compute : Compute ℕ
compute snap required = ("rsi_14", 650000) ∷ ("volume_daily", 20000000) ∷ []

env-IsClock : IsClock env
env-IsClock i = omega arith

abbrev edits : List (Op ℕ)
edits = added 7 strong ∷ toggled 9 "r1" false ∷ toggled 11 "r1" true ∷ []

abbrev loop : ScanLoop ℕ
loop = record {
  running = true;
  cancelled = false;
  compiled_rules = ("r1", λ symbol m. evaluate_all resolver m 0 strong.conditions) ∷ [];
  required_metrics = ("rsi_14", true) ∷ [];
  last_rule_reload = 1;
  stats = new_stats;
}

abbrev states : StateManager ℕ
states = record {
  states = ("AAPL", new_symbol_state "AAPL") ∷ ("MSFT", new_symbol_state "MSFT") ∷ [];
  max_final_bars = 200;
}

abbrev cycle : Cycle ℕ
cycle = record {
  manager = states;
  tracker = some (new_cooldown_tracker 10000000000 300000000000);
  emitter = some (new_alert_emitter "alerts");
  world = record { reads = 0; uuids = 0; stream = [] };
  totals = no_totals;
}

abbrev works : List (Work ℕ)
works =
    scanned (get_rule (apply_ops new_rule_store edits)) loop
    ∷ cleaned
    ∷ updated states
    ∷ scanned (get_rule (apply_ops new_rule_store edits)) loop
    ∷ []

works_keyed : All (IsKeyedWork env compute) works
works_keyed = (apply_ops-id edits, (tt, (tt, (apply_ops-id edits, tt))))

work_all-Spaced_example : Spaced 10000000000 (work_all env compute cycle works).world.stream
work_all-Spaced_example =
    work_all-Spaced env compute 10000000000 300000000000 cycle works env-IsClock refl works_keyed
      refl refl

scan_cycle_counts_example :
    let totals =
      (scan_cycle env (get_rule (apply_ops new_rule_store edits)) compute loop cycle).totals in
    (totals.symbols_scanned ≡ 2)
    × (totals.rules_evaluated ≡ 2)
    × (totals.rules_matched
        ≡ count_matches
            (get_rule (apply_ops new_rule_store edits))
            compute
            loop.required_metrics
            loop.compiled_rules
            states.states)
    × (totals.alerts_emitted ≤ totals.rules_matched)
unfolding new_symbol_state
scan_cycle_counts_example =
    scan_cycle_counts env (get_rule (apply_ops new_rule_store edits)) compute loop cycle
      (omega arith) (omega arith) ((refl, tt), (tt, tt)) (refl, (refl, tt))

abbrev metrics : Dict ℕ
metrics = ("rsi_14", 650000) ∷ ("volume_daily", 20000000) ∷ []

should_evaluate_rule-All_example :
    (should_evaluate_rule strong metrics "market" ≡ true)
    ↔ All (Passes metrics "market") strong.conditions
should_evaluate_rule-All_example = should_evaluate_rule-All metrics "market" strong

abbrev one_rule : RuleStore ℕ
one_rule = record { rules = ("r1", strong) ∷ [] }

abbrev times : List ℕ
times = 700000000 ∷ 90000000 ∷ 810000000 ∷ []

abbrev closed_state : SymbolState ℕ
closed_state = new_symbol_state "AAPL"

day_volumes_example :
    let st' =
      feed_ticks
        (feed_ticks
          (feed_ticks closed_state premarket (first_tick ∷ []))
          market
          (second_tick ∷ first_tick ∷ []))
        postmarket
        (third_tick ∷ []) in
    (st'.premarket_volume ≡ sum (sizes (first_tick ∷ [])))
    × (st'.market_volume ≡ sum (sizes (second_tick ∷ first_tick ∷ [])))
    × (st'.postmarket_volume ≡ sum (sizes (third_tick ∷ [])))
unfolding new_symbol_state
day_volumes_example =
    day_volumes closed_state first_tick second_tick third_tick [] (first_tick ∷ []) [] refl

-- A state in the market session, after an opening price
abbrev trading : SymbolState ℕ
trading = record (new_symbol_state "AAPL") {
  current_session = market;
  today_open = 1500000;
  premarket_volume = 900;
  market_volume = 100;
}

feed_all-open_example :
    (feed_all trading (
      Feed.bar 200 5 premarket (bar_at 60000000000)
      ∷ Feed.tick 6 market "AAPL" first_tick
      ∷ [])).today_open
    ≡ trading.today_open
feed_all-open_example =
    feed_all-open trading
      (Feed.bar 200 5 premarket (bar_at 60000000000) ∷ Feed.tick 6 market "AAPL" first_tick ∷ [])
      refl

abbrev early_bar : Bar1m ℕ
early_bar = bar_at 0

abbrev night : SymbolState ℕ
night = new_symbol_state "AAPL"

late_bar_volumes_example :
    let before =
      feed_ticks (feed_ticks night premarket (first_tick ∷ [])) market (second_tick ∷ []) in
    let late = apply_bar 200 5 premarket early_bar before in
    let after = feed_ticks late market (third_tick ∷ []) in
    (before.premarket_volume ≡ sum (sizes (first_tick ∷ [])))
    × (before.market_volume ≡ sum (sizes (second_tick ∷ [])))
    × (late.premarket_volume ≡ 0)
    × (late.market_volume ≡ 0)
    × (after.premarket_volume ≡ 0)
    × (after.market_volume ≡ sum (sizes (third_tick ∷ [])))
unfolding new_symbol_state
late_bar_volumes_example =
    late_bar_volumes night 200 5 first_tick second_tick third_tick [] [] [] early_bar refl
      (omega arith)

get_cached_metrics-set_cached_metrics_example :
    let got =
      get_cached_metrics
        (set_cached_metrics trading 1000 metrics 100)
        1050
        1060
        (some (("rsi_14", true) ∷ []))
        100 in
    ((is_some got ≡ true) ↔ (
      (is_empty metrics ≡ false)
      × (1060 ≤ 1000 + 100)
      × All {A = String × Bool} (λ e. has e.0 metrics ≡ true) (("rsi_14", true) ∷ [])))
    × (lookup_in "rsi_14" got ≡ (
        if is_some got && get_or false "rsi_14" (("rsi_14", true) ∷ [])
        then lookup "rsi_14" metrics
        else none))
get_cached_metrics-set_cached_metrics_example =
    get_cached_metrics-set_cached_metrics trading 1000 1050 1060 100 metrics (("rsi_14", true) ∷ [])
      "rsi_14" (omega arith) (omega arith) (omega arith) refl

get_cached_metrics_updates_example :
    (get_cached_metrics (apply_tick 5 market "AAPL" first_tick trading) 6 7 none 100 ≡ none)
    × (get_cached_metrics (apply_bar 200 5 market (bar_at 60000000000) trading) 6 7 none 100 ≡ none)
    × (get_cached_metrics (apply_indicators 5 metrics trading) 6 7 none 100
        ≡ get_cached_metrics trading 6 7 none 100)
get_cached_metrics_updates_example =
    get_cached_metrics_updates trading 5 6 7 100 200 market "AAPL" first_tick (bar_at 60000000000)
      metrics none

abbrev idle : ScanLoop ℕ
idle = record loop { running = false }

start-start_example :
    let started = start resolver (λ rules. []) 5 (err nil_rule) idle in
    let later = start_all resolver (λ rules. []) 5 6 ((7, ok (strong ∷ [])) ∷ []) started.1 in
    (started.1.running ≡ true)
    × (later ≡ started.1)
    × ((start resolver (λ rules. []) 6 (ok (strong ∷ [])) later).0 ≡ err already_running)
    × ((stop later).running ≡ false)
    × ((start resolver (λ rules. []) 6 (ok (strong ∷ [])) (stop later)).1.cancelled ≡ true)
start-start_example =
    start-start resolver (λ rules. []) 5 6 idle (err nil_rule) (ok (strong ∷ []))
      ((7, ok (strong ∷ [])) ∷ []) refl

abbrev parsed : Rule ℕ
parsed = prepare_rule 5 6 strong

parse_rule_lem_example :
    (validate_rule parsed ≡ ok tt)
    × (should_evaluate_rule parsed metrics "market" ≡ should_evaluate_rule strong metrics "market")
    × (evaluate_all resolver metrics 0 parsed.conditions
        ≡ evaluate_all resolver metrics 0 strong.conditions)
unfolding parse_rule
parse_rule_lem_example = parse_rule_lem 5 6 strong parsed resolver metrics "market" refl
