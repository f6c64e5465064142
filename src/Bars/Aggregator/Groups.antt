-- ===== src/Bars/Aggregator/Groups.antt =====
-- The bars of a symbol, described without the aggregator: the symbol's valid ticks are cut where
-- the minute changes, and each piece becomes one bar.
use stock_scanner.Prelude.{
  String, ◌≡◌, refl, ap, sym, ◌∙◌, Bool, true, Option, none, some, List, [], ◌∷◌, ◌++◌, arith,
  str_eq, eq_iff, if◌then◌else◌, ◌==◌, ok, err, Bool-cases, inl, inr, map, append_assoc, append-nil,
}
use stock_scanner.Float.{Float}
use stock_scanner.Dict.{lookup}
use stock_scanner.Models.Market.{
  Tick, Bar1m, LiveBar, validate_tick, to_bar1m, new_live_bar, update, update_all,
}
use stock_scanner.Bars.Aggregator.{
  Aggregator, Call, bar_final, bar_update, minute_start, call_update, bar_for, ended_by, add_tick,
  process_tick, run, set_on_bar_final, new_aggregator,
}
use stock_scanner.Bars.Aggregator.Steps.{
  IsWellFormed, IsBarOf, update-keeps, lookup-add_tick, process_tick-IsWellFormed,
}

module _ {F : Type 0} where
  -- Two ticks fall in one minute.
  abbrev pub same_minute : Tick F → Tick F → Bool
  same_minute t u = minute_start t.timestamp == minute_start u.timestamp

  abbrev pub join : Tick F → List (Tick F × List (Tick F)) → List (Tick F × List (Tick F))
  join t [] = (t, []) ∷ []
  join t ((u, us) ∷ gs) = if same_minute t u then (t, u ∷ us) ∷ gs else (t, []) ∷ (u, us) ∷ gs

  -- The longest runs of ticks in one minute, each as its first tick and the others.
  abbrev pub groups : List (Tick F) → List (Tick F × List (Tick F))
  groups [] = []
  groups (t ∷ ts) = join t (groups ts)

  -- The bars that the final callback was given for a symbol.
  abbrev pub finals : String → List (Call F) → List (Bar1m F)
  finals s [] = []
  finals s (bar_final b ∷ cs) = if str_eq b.symbol s then b ∷ finals s cs else finals s cs
  finals s (bar_update lb ∷ cs) = finals s cs

  finals-append :
      (s : String) (cs ds : List (Call F)) → finals s (cs ++ ds) ≡ finals s cs ++ finals s ds
  finals-append s [] ds = refl
  finals-append s (bar_final b ∷ cs) ds = ground (arith, finals-append s cs ds)
  finals-append s (bar_update lb ∷ cs) ds = finals-append s cs ds

module _ {F : Type 0} ⦃fl : Float F⦄ where
  abbrev pub valid_ticks_of : String → List (Tick F) → List (Tick F)
  valid_ticks_of s [] = []
  valid_ticks_of s (t ∷ ts) =
      let rest = valid_ticks_of s ts in
      elim (validate_tick t) [ ok _ ↦ if str_eq t.symbol s then t ∷ rest else rest | err _ ↦ rest ]

  -- The bar of one group.
  abbrev pub bar_of : Tick F × List (Tick F) → LiveBar F
  bar_of (t, ts) = update_all (new_live_bar t.symbol (minute_start t.timestamp)) (t ∷ ts)

  abbrev pub live_of : Option (LiveBar F) → List (Bar1m F)
  live_of none = []
  live_of (some lb) = to_bar1m lb ∷ []

  -- The bars of the groups, where a bar may be under way.
  abbrev pub bars_from : Option (LiveBar F) → List (Tick F × List (Tick F)) → List (LiveBar F)
  bars_from none gs = map bar_of gs
  bars_from (some lb) [] = lb ∷ []
  bars_from (some lb) ((u, us) ∷ gs) =
      if lb.timestamp == minute_start u.timestamp
      then update_all lb (u ∷ us) ∷ map bar_of gs
      else lb ∷ bar_of (u, us) ∷ map bar_of gs

  abbrev ended_bars : Option (LiveBar F) → Tick F → List (Bar1m F)
  ended_bars none t = []
  ended_bars (some lb) t = if lb.timestamp == minute_start t.timestamp then [] else to_bar1m lb ∷ []

  new-timestamp : (t : Tick F) → (bar_for none t).timestamp ≡ minute_start t.timestamp
  unfolding bar_for new_live_bar
  new-timestamp t = refl

  bars_from-join :
      (o : Option (LiveBar F)) (t : Tick F) (gs : List (Tick F × List (Tick F)))
      → map to_bar1m (bars_from o (join t gs))
        ≡ ended_bars o t ++ map to_bar1m (bars_from (some (update (bar_for o t) t)) gs)
  unfolding bar_for update_all
  bars_from-join none t [] = refl
  bars_from-join none t ((u, us) ∷ gs) =
      ground (arith, new-timestamp t, update-keeps (bar_for none t) t)
  bars_from-join (some lb) t [] = ground arith
  bars_from-join (some lb) t ((u, us) ∷ gs) =
      ground (arith, new-timestamp t, update-keeps (bar_for none t) t, update-keeps lb t)

  finals-call_update :
      (s : String) (a : Aggregator F) (lb : LiveBar F) → finals s (call_update a lb) ≡ []
  finals-call_update s a lb = ground arith

  finals-ended_by :
      (s : String) (a : Aggregator F) (o : Option (LiveBar F)) (t : Tick F)
      → a.on_bar_final ≡ true
      → ((lb : LiveBar F) → o ≡ some lb → IsBarOf t.symbol lb)
      → finals s (ended_by a o t) ≡ (if str_eq t.symbol s then ended_bars o t else [])
  unfolding ended_by to_bar1m
  finals-ended_by s a none t on h = ground arith
  finals-ended_by s a (some lb) t on h = ground (arith, h lb refl)

  finals-add_tick :
      (s : String) (a : Aggregator F) (t : Tick F)
      → a.on_bar_final ≡ true
      → IsWellFormed a
      → finals s (add_tick a t).1
        ≡ (if str_eq t.symbol s then ended_bars (lookup t.symbol a.live_bars) t else [])
  unfolding add_tick
  finals-add_tick s a t on v =
      let o = lookup t.symbol a.live_bars in
      let lb = update (bar_for o t) t in
      finals-append s (ended_by a o t) (call_update a lb)
      ∙ ap (λ x. finals s (ended_by a o t) ++ x) (finals-call_update s a lb)
      ∙ append-nil (finals s (ended_by a o t))
      ∙ finals-ended_by s a o t on (v.bars t.symbol)

  add_tick-on_bar_final :
      (a : Aggregator F) (t : Tick F) → (add_tick a t).0.on_bar_final ≡ a.on_bar_final
  unfolding add_tick
  add_tick-on_bar_final a t = refl

  -- The bars of a symbol up to now: those handed over, then the live one.
  abbrev pub bars_so_far : String → Aggregator F × List (Call F) → List (Bar1m F)
  bars_so_far s (a, calls) = finals s calls ++ live_of (lookup s a.live_bars)

  bars_so_far-append :
      (s : String) (cs ds : List (Call F)) (a : Aggregator F)
      → bars_so_far s (a, cs ++ ds) ≡ finals s cs ++ bars_so_far s (a, ds)
  bars_so_far-append s cs ds a =
      ap (λ x. x ++ live_of (lookup s a.live_bars)) (finals-append s cs ds)
      ∙ append_assoc (finals s cs) (finals s ds) (live_of (lookup s a.live_bars))

  bars_from-nil : (o : Option (LiveBar F)) → live_of o ≡ map to_bar1m (bars_from o [])
  bars_from-nil none = refl
  bars_from-nil (some lb) = refl

  -- One accepted tick, of the symbol or of another.
  add_tick-bars_from :
      (s : String) (a : Aggregator F) (t : Tick F) (ts : List (Tick F))
      → a.on_bar_final ≡ true
      → IsWellFormed a
      → finals s (add_tick a t).1
          ++ map to_bar1m (bars_from (lookup s (add_tick a t).0.live_bars) (groups ts))
        ≡ map to_bar1m
            (bars_from (lookup s a.live_bars) (groups (if str_eq t.symbol s then t ∷ ts else ts)))
  add_tick-bars_from s a t ts on v = elim (Bool-cases (str_eq t.symbol s)) [
    | inl same ↦
        let e = (eq_iff t.symbol s).0 same in
        rw (finals-add_tick s a t on v, lookup-add_tick a t s, same, ← e)
          (sym (bars_from-join (lookup t.symbol a.live_bars) t (groups ts)))
    | inr other ↦ rw (finals-add_tick s a t on v, lookup-add_tick a t s, other) refl
  ]

  -- The same for a call of ProcessTick, which may refuse the tick.
  step_on_bar_final :
      (a : Aggregator F) (t : Tick F)
      → a.on_bar_final ≡ true
      → (process_tick a (some t)).1.on_bar_final ≡ true
  unfolding process_tick
  step_on_bar_final a t on = ground (arith, add_tick-on_bar_final a t)

  process_tick-bars_from :
      (s : String) (a : Aggregator F) (t : Tick F) (ts : List (Tick F))
      → a.on_bar_final ≡ true
      → IsWellFormed a
      → finals s (process_tick a (some t)).2
          ++ map to_bar1m (
              bars_from
                (lookup s (process_tick a (some t)).1.live_bars)
                (groups (valid_ticks_of s ts)))
        ≡ map to_bar1m (bars_from (lookup s a.live_bars) (groups (valid_ticks_of s (t ∷ ts))))
  unfolding process_tick
  process_tick-bars_from s a t ts on v =
      ground (arith, add_tick-bars_from s a t (valid_ticks_of s ts) on v)

  run-bars_from :
      (s : String) (a : Aggregator F) (ts : List (Tick F))
      → a.on_bar_final ≡ true
      → IsWellFormed a
      → bars_so_far s (run a ts)
        ≡ map to_bar1m (bars_from (lookup s a.live_bars) (groups (valid_ticks_of s ts)))
  unfolding run
  run-bars_from s a [] on v = bars_from-nil (lookup s a.live_bars)
  run-bars_from s a (t ∷ ts) on v =
      let a' = (process_tick a (some t)).1 in
      let calls = (process_tick a (some t)).2 in
      bars_so_far-append s calls (run a' ts).1 (run a' ts).0
      ∙ ap (λ x. finals s calls ++ x)
          (run-bars_from s a' ts (step_on_bar_final a t on)
            (process_tick-IsWellFormed a (some t) v))
      ∙ process_tick-bars_from s a t ts on v

  map-bar_of :
      (gs : List (Tick F × List (Tick F)))
      → map to_bar1m (map bar_of gs) ≡ map (λ g. to_bar1m (bar_of g)) gs
  map-bar_of [] = refl
  map-bar_of (g ∷ gs) = ap (λ x. to_bar1m (bar_of g) ∷ x) (map-bar_of gs)

  -- From a new aggregator with a final callback, whatever ticks arrive: the bars of a symbol that
  -- the callback got, followed by the symbol's live bar, are the bars of the groups of the valid
  -- ticks of that symbol, in order. Ticks of other symbols and invalid ticks do not matter.
  pub run-groups :
      (s : String) (ts : List (Tick F))
      → bars_so_far s (run (set_on_bar_final new_aggregator) ts)
        ≡ map (λ g. to_bar1m (bar_of g)) (groups (valid_ticks_of s ts))
  unfolding set_on_bar_final lookup
  run-groups s ts =
      run-bars_from s (set_on_bar_final new_aggregator) ts refl
        (record { bars = λ k lb e. cc; unique = tt })
      ∙ map-bar_of (groups (valid_ticks_of s ts))
