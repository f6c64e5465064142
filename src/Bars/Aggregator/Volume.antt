-- ===== src/Bars/Aggregator/Volume.antt =====
-- No volume is lost between the live bars and the finalized ones.
use stock_scanner.Prelude.{
  ℕ, ◌+◌, ◌%◌, String, ◌≡◌, refl, ap, true, Option, none, some, List, [], ◌∷◌, ◌++◌, arith, str_eq,
  ◌==◌, ok, err, Bool-cases, inl, inr, map,
}
use stock_scanner.Float.{Float}
use stock_scanner.Int64.{add, word}
use stock_scanner.Dict.{Dict, lookup, insert, values}
use stock_scanner.Models.Market.{Tick, LiveBar, validate_tick, to_bar1m, new_live_bar, update}
use stock_scanner.Models.Market.Ohlc.{update-volume}
use stock_scanner.Bars.Aggregator.{
  Aggregator, Call, bar_final, bar_update, minute_start, call_update, bar_for, ended_by, add_tick,
  process_tick, finalize_all_bars, final_calls, run,
}

module _ {F : Type 0} where
  -- The volume held in live bars, and the volume handed to the callback of finalized bars.
  abbrev pub live_volume : Dict (LiveBar F) → ℕ
  live_volume [] = 0
  live_volume ((k, lb) ∷ m) = add lb.volume (live_volume m)

  abbrev pub final_volume : List (Call F) → ℕ
  final_volume [] = 0
  final_volume (bar_final b ∷ cs) = add b.volume (final_volume cs)
  final_volume (bar_update lb ∷ cs) = final_volume cs

  abbrev held : Option (LiveBar F) → ℕ
  held none = 0
  held (some lb) = lb.volume

  live_volume-insert :
      (k : String) (lb : LiveBar F) (m : Dict (LiveBar F))
      → (live_volume (insert k lb m) + held (lookup k m)) % word
        ≡ (live_volume m + lb.volume) % word
  unfolding insert lookup
  live_volume-insert k lb [] = omega arith
  live_volume-insert k lb ((j, w) ∷ m) = elim (Bool-cases (str_eq j k)) [
    | inl e ↦ rw e (omega arith)
    | inr e ↦ rw e (omega (arith, live_volume-insert k lb m))
  ]

  final_volume-append :
      (cs ds : List (Call F))
      → final_volume (cs ++ ds) % word ≡ (final_volume cs + final_volume ds) % word
  final_volume-append [] ds = omega arith
  final_volume-append (bar_final b ∷ cs) ds = omega (arith, final_volume-append cs ds)
  final_volume-append (bar_update lb ∷ cs) ds = final_volume-append cs ds

module _ {F : Type 0} ⦃fl : Float F⦄ where
  abbrev pub accepted : List (Tick F) → ℕ
  accepted [] = 0
  accepted (t ∷ ts) = elim (validate_tick t) [
    | ok _ ↦ add t.size (accepted ts)
    | err _ ↦ accepted ts
  ]

  final_volume-call_update :
      (a : Aggregator F) (lb : LiveBar F) → final_volume (call_update a lb) ≡ 0
  final_volume-call_update a lb = ground arith

  -- The volume of the bar that a tick continues or ends goes on or is handed over.
  tick_volume :
      (a : Aggregator F) (o : Option (LiveBar F)) (t : Tick F)
      → a.on_bar_final ≡ true
      → ((update (bar_for o t) t).volume + final_volume (ended_by a o t)) % word
        ≡ (held o + t.size) % word
  unfolding ended_by bar_for new_live_bar to_bar1m
  tick_volume a none t h =
      omega (arith, update-volume (new_live_bar t.symbol (minute_start t.timestamp)) t)
  tick_volume a (some lb) t h = elim (Bool-cases (lb.timestamp == minute_start t.timestamp)) [
    | inl same ↦ rw same (omega (arith, update-volume lb t))
    | inr ended ↦
        rw (ended, h)
          (omega (arith, update-volume (new_live_bar t.symbol (minute_start t.timestamp)) t))
  ]

  add_tick-volume :
      (a : Aggregator F) (t : Tick F)
      → a.on_bar_final ≡ true
      → (live_volume (add_tick a t).0.live_bars + final_volume (add_tick a t).1) % word
        ≡ (live_volume a.live_bars + t.size) % word
  unfolding add_tick
  add_tick-volume a t h =
      let o = lookup t.symbol a.live_bars in
      let lb = update (bar_for o t) t in
      omega (
        arith,
        live_volume-insert t.symbol lb a.live_bars,
        tick_volume a o t h,
        final_volume-append (ended_by a o t) (call_update a lb),
        final_volume-call_update a lb,
      )

  add_tick-on_bar_final :
      (a : Aggregator F) (t : Tick F) → (add_tick a t).0.on_bar_final ≡ a.on_bar_final
  unfolding add_tick
  add_tick-on_bar_final a t = refl

  step_volume :
      (a : Aggregator F) (t : Tick F)
      → a.on_bar_final ≡ true
      → ((process_tick a (some t)).1.on_bar_final ≡ true)
        × ((live_volume (process_tick a (some t)).1.live_bars
                + final_volume (process_tick a (some t)).2)
              % word
            ≡ (live_volume a.live_bars + accepted (t ∷ [])) % word)
  unfolding process_tick
  step_volume a t h = ground (arith, add_tick-volume a t h, add_tick-on_bar_final a t)

  accepted-cons :
      (t : Tick F) (ts : List (Tick F))
      → accepted (t ∷ ts) % word ≡ (accepted (t ∷ []) + accepted ts) % word
  accepted-cons t ts = ground arith

  -- While the callback for finalized bars is set, whatever ticks arrive, in whatever order of
  -- symbols and times: the volume held in live bars and the volume handed over in finalized bars
  -- grow together by exactly the sizes of the valid ticks, modulo 2^64.
  pub run-volume :
      (a : Aggregator F) (ts : List (Tick F))
      → a.on_bar_final ≡ true
      → (live_volume (run a ts).0.live_bars + final_volume (run a ts).1) % word
        ≡ (live_volume a.live_bars + accepted ts) % word
  unfolding run
  run-volume a [] h = omega arith
  run-volume a (t ∷ ts) h =
      let s = step_volume a t h in
      let a' = (process_tick a (some t)).1 in
      omega (
        arith,
        s.1,
        run-volume a' ts s.0,
        final_volume-append (process_tick a (some t)).2 (run a' ts).1,
        accepted-cons t ts,
      )

  final_calls-volume :
      (a : Aggregator F) (m : Dict (LiveBar F))
      → a.on_bar_final ≡ true
      → final_volume (final_calls a (map to_bar1m (values m))) ≡ live_volume m
  unfolding final_calls to_bar1m
  final_calls-volume a [] h = refl
  final_calls-volume a ((k, lb) ∷ m) h = rw h (ap (add lb.volume) (final_calls-volume a m h))

  -- FinalizeAllBars hands over what was live, whole.
  finalize_all_bars-volume :
      (a : Aggregator F)
      → a.on_bar_final ≡ true
      → final_volume (finalize_all_bars a).2 ≡ live_volume a.live_bars
  unfolding finalize_all_bars
  finalize_all_bars-volume a h = final_calls-volume a a.live_bars h
