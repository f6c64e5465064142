-- ===== src/Bars/Aggregator.antt =====
-- internal/bars/aggregator.go: ticks into one-minute bars. The methods run under the aggregator's
-- mutex, so each is one step. A callback runs in a goroutine of its own: a step returns the calls
-- that it starts, in order; `on_bar_final` and `on_bar_update` say whether a callback is set.
pub mod Steps
pub mod Volume
pub mod Groups
use stock_scanner.Prelude.{
  ℕ, ◌-◌, ◌%◌, ◌*◌, ◌^◌, String, Bool, true, false, Option, none, some, List, [], ◌∷◌, ◌++◌, map,
  if◌then◌else◌, ◌==◌, Result, ok, err, length,
}
use stock_scanner.Float.{Float}
use stock_scanner.Dict.{Dict, lookup, insert, remove, values}
use stock_scanner.Models.Market.{
  Tick, Bar1m, LiveBar, ModelError, validate_tick, to_bar1m, new_live_bar, update,
}

pub record Aggregator (F : Type 0) : Type 0 where
  pub live_bars : Dict (LiveBar F)
  pub on_bar_final : Bool
  pub on_bar_update : Bool

pub data Call (F : Type 0) : Type 0 where
  bar_final : Bar1m F → Call F
  bar_update : LiveBar F → Call F

-- time.Minute, in nanoseconds
abbrev pub minute : ℕ
minute = 60000000000

-- tick.Timestamp.Truncate(time.Minute): rounds down, counting from the zero time
abbrev pub minute_start : ℕ → ℕ
minute_start t = t - t % minute

module _ {F : Type 0} where
  abbrev pub new_aggregator : Aggregator F
  new_aggregator = record { live_bars = []; on_bar_final = false; on_bar_update = false }

  unfoldable pub set_on_bar_final : Aggregator F → Aggregator F
  set_on_bar_final a = record a { on_bar_final = true }

  unfoldable pub set_on_bar_update : Aggregator F → Aggregator F
  set_on_bar_update a = record a { on_bar_update = true }

  abbrev pub call_final : Aggregator F → Bar1m F → List (Call F)
  call_final a b = if a.on_bar_final then bar_final b ∷ [] else []

  abbrev pub call_update : Aggregator F → LiveBar F → List (Call F)
  call_update a lb = if a.on_bar_update then bar_update lb ∷ [] else []

module _ {F : Type 0} ⦃fl : Float F⦄ where
  -- The bar that the tick goes to: the current one, or a new one if there is none or if the
  -- minute boundary was crossed.
  unfoldable pub bar_for : Option (LiveBar F) → Tick F → LiveBar F
  bar_for none t = new_live_bar t.symbol (minute_start t.timestamp)
  bar_for (some lb) t =
      if lb.timestamp == minute_start t.timestamp
      then lb
      else new_live_bar t.symbol (minute_start t.timestamp)

  -- The calls for a bar that the tick ends.
  unfoldable pub ended_by : Aggregator F → Option (LiveBar F) → Tick F → List (Call F)
  ended_by a none t = []
  ended_by a (some lb) t =
      if lb.timestamp == minute_start t.timestamp then [] else call_final a (to_bar1m lb)

  -- ProcessTick behind its validation
  unfoldable pub add_tick : Aggregator F → Tick F → Aggregator F × List (Call F)
  unfolding bar_for ended_by
  add_tick a t =
      let current = lookup t.symbol a.live_bars in
      let live_bar = update (bar_for current t) t in
      (
        record a { live_bars = insert t.symbol live_bar a.live_bars },
        ended_by a current t ++ call_update a live_bar,
      )

  unfoldable pub process_tick :
      Aggregator F → Option (Tick F) → Result ModelError (Unit {0}) × Aggregator F × List (Call F)
  unfolding add_tick validate_tick
  process_tick a none = (ok tt, a, [])
  process_tick a (some t) = elim (validate_tick t) [
    | err e ↦ (err e, a, [])
    | ok _ ↦ let (a', calls) = add_tick a t in (ok tt, a', calls)
  ]

  -- GetLiveBar; `none` is nil
  unfoldable pub get_live_bar : Aggregator F → String → Option (LiveBar F)
  unfolding lookup
  get_live_bar a symbol = lookup symbol a.live_bars

  unfoldable pub get_all_live_bars : Aggregator F → Dict (LiveBar F)
  get_all_live_bars a = a.live_bars

  unfoldable pub finalize_bar :
      Aggregator F → String → Option (Bar1m F) × Aggregator F × List (Call F)
  unfolding lookup remove to_bar1m
  finalize_bar a symbol = elim (lookup symbol a.live_bars) [
    | none ↦ (none, a, [])
    | some lb ↦ (
      some (to_bar1m lb),
      record a { live_bars = remove symbol a.live_bars },
      call_final a (to_bar1m lb),
    )
  ]

  pub final_calls : Aggregator F → List (Bar1m F) → List (Call F)
  final_calls a [] = []
  final_calls a (b ∷ bs) = call_final a b ++ final_calls a bs

  unfoldable pub finalize_all_bars : Aggregator F → List (Bar1m F) × Aggregator F × List (Call F)
  unfolding to_bar1m final_calls
  finalize_all_bars a =
      let finalized = map to_bar1m (values a.live_bars) in
      (finalized, record a { live_bars = [] }, final_calls a finalized)

  unfoldable pub get_symbol_count : Aggregator F → ℕ
  get_symbol_count a = length a.live_bars

  -- A sequence of calls of ProcessTick, with the callbacks that they start.
  unfoldable pub run : Aggregator F → List (Tick F) → Aggregator F × List (Call F)
  run a [] = (a, [])
  run a (t ∷ ts) =
      let (_, a', calls) = process_tick a (some t) in
      let (a'', later) = run a' ts in (a'', calls ++ later)
