-- ===== src/Bars/Aggregator/Steps.antt =====
-- What one call does to the live bars: validation errors, the minute boundary, well-formedness.
use stock_scanner.Prelude.{
  ℕ, ◌%◌, String, ◌≡◌, refl, Option, none, some, List, [], ◌∷◌, ◌++◌, arith, str_eq, eq_iff,
  if◌then◌else◌, inl, inr, Option-cases, All,
}
use stock_scanner.Float.{Float}
use stock_scanner.Dict.{lookup, IsMap}
use stock_scanner.Dict.Laws.{lookup-insert, lookup-remove, insert-IsMap, remove-IsMap}
use stock_scanner.Models.Market.{Tick, LiveBar, to_bar1m, new_live_bar, update}
use stock_scanner.Bars.Aggregator.{
  Aggregator, Call, bar_final, bar_update, minute, minute_start, call_update, bar_for, ended_by,
  add_tick, process_tick, finalize_bar, run,
}

-- A bar that belongs under its key, at a minute boundary.
pub record IsBarOf {F : Type 0} (key : String) (lb : LiveBar F) : Type 0 where
  pub own_symbol : lb.symbol ≡ key
  pub aligned : lb.timestamp % minute ≡ 0

pub record IsWellFormed {F : Type 0} (a : Aggregator F) : Type 0 where
  pub bars : (k : String) (lb : LiveBar F) → lookup k a.live_bars ≡ some lb → IsBarOf k lb
  pub unique : IsMap a.live_bars

pub minute_start-aligned : (t : ℕ) → minute_start t % minute ≡ 0
minute_start-aligned t = omega arith

module _ {F : Type 0} ⦃fl : Float F⦄ where
  pub update-keeps :
      (lb : LiveBar F) (t : Tick F)
      → ((update lb t).symbol ≡ lb.symbol) × ((update lb t).timestamp ≡ lb.timestamp)
  unfolding update
  update-keeps lb t = ground arith

  bar_for-IsBarOf :
      (o : Option (LiveBar F)) (t : Tick F)
      → ((lb : LiveBar F) → o ≡ some lb → IsBarOf t.symbol lb)
      → IsBarOf t.symbol (update (bar_for o t) t)
  unfolding bar_for new_live_bar
  bar_for-IsBarOf none t h = ground (
    arith,
    update-keeps (new_live_bar t.symbol (minute_start t.timestamp)) t,
    minute_start-aligned t.timestamp,
  )
  bar_for-IsBarOf (some lb) t h = ground (
    arith,
    h lb refl,
    update-keeps lb t,
    update-keeps (new_live_bar t.symbol (minute_start t.timestamp)) t,
    minute_start-aligned t.timestamp,
  )

  pub lookup-add_tick :
      (a : Aggregator F) (t : Tick F) (k : String)
      → lookup k (add_tick a t).0.live_bars ≡ (
          if str_eq t.symbol k
          then some (update (bar_for (lookup t.symbol a.live_bars) t) t)
          else lookup k a.live_bars)
  unfolding add_tick
  lookup-add_tick a t k = lookup-insert t.symbol k _ a.live_bars

  pub add_tick-IsWellFormed :
      (a : Aggregator F) (t : Tick F) → IsWellFormed a → IsWellFormed (add_tick a t).0
  add_tick-IsWellFormed a t v = record {
    bars = λ k lb e. ground (
      arith,
      lookup-add_tick a t k,
      eq_iff t.symbol k,
      v.bars k lb,
      bar_for-IsBarOf (lookup t.symbol a.live_bars) t (v.bars t.symbol),
    );
    unique = unfold add_tick in insert-IsMap t.symbol _ a.live_bars v.unique;
  }

  pub process_tick-IsWellFormed :
      (a : Aggregator F) (o : Option (Tick F)) → IsWellFormed a → IsWellFormed (process_tick a o).1
  unfolding process_tick
  process_tick-IsWellFormed a none v = v
  process_tick-IsWellFormed a (some t) v = ground (arith, add_tick-IsWellFormed a t v)

  pub finalize_bar-IsWellFormed :
      (a : Aggregator F) (k : String) → IsWellFormed a → IsWellFormed (finalize_bar a k).1
  unfolding finalize_bar
  finalize_bar-IsWellFormed a k v = elim (Option-cases (lookup k a.live_bars)) [
    | inl e ↦ rw (e, finalize_bar) v
    | inr (lb, e) ↦
        rw (e, finalize_bar)
          (record {
            bars = λ j b h. ground (arith, lookup-remove k j a.live_bars, v.bars j b);
            unique = remove-IsMap k a.live_bars v.unique;
          })
  ]

  abbrev pub IsAligned : Call F → Type 0
  IsAligned (bar_final b) = b.timestamp % minute ≡ 0
  IsAligned (bar_update lb) = lb.timestamp % minute ≡ 0

  All-append :
      (xs ys : List (Call F)) → All IsAligned xs → All IsAligned ys → All IsAligned (xs ++ ys)
  All-append [] ys p q = q
  All-append (x ∷ xs) ys p q = (p.0, All-append xs ys p.1 q)

  ended_by-IsAligned :
      (a : Aggregator F) (o : Option (LiveBar F)) (t : Tick F)
      → ((lb : LiveBar F) → o ≡ some lb → IsBarOf t.symbol lb)
      → All IsAligned (ended_by a o t)
  unfolding ended_by to_bar1m
  ended_by-IsAligned a none t h = tt
  ended_by-IsAligned a (some lb) t h = ground (arith, h lb refl)

  call_update-IsAligned :
      (a : Aggregator F) (o : Option (LiveBar F)) (t : Tick F)
      → ((lb : LiveBar F) → o ≡ some lb → IsBarOf t.symbol lb)
      → All IsAligned (call_update a (update (bar_for o t) t))
  call_update-IsAligned a o t h = ground (arith, bar_for-IsBarOf o t h)

  add_tick-IsAligned :
      (a : Aggregator F) (t : Tick F) → IsWellFormed a → All IsAligned (add_tick a t).1
  unfolding add_tick
  add_tick-IsAligned a t v =
      All-append (ended_by a (lookup t.symbol a.live_bars) t) _
        (ended_by-IsAligned a (lookup t.symbol a.live_bars) t (v.bars t.symbol))
        (call_update-IsAligned a (lookup t.symbol a.live_bars) t (v.bars t.symbol))

  pub process_tick-IsAligned :
      (a : Aggregator F) (o : Option (Tick F)) → IsWellFormed a → All IsAligned (process_tick a o).2
  unfolding process_tick
  process_tick-IsAligned a none v = tt
  process_tick-IsAligned a (some t) v = ground (arith, add_tick-IsAligned a t v)

  -- From a well-formed aggregator, any sequence of ticks, valid or not, leaves one: each live bar
  -- stands once, under its own symbol, at a minute boundary. Every bar that a callback is given,
  -- finalized or live, starts at a minute boundary too.
  pub run-IsWellFormed :
      (a : Aggregator F) (ts : List (Tick F))
      → IsWellFormed a
      → IsWellFormed (run a ts).0 × All IsAligned (run a ts).1
  unfolding run
  run-IsWellFormed a [] v = (v, tt)
  run-IsWellFormed a (t ∷ ts) v =
      let rest =
        run-IsWellFormed (process_tick a (some t)).1 ts (process_tick-IsWellFormed a (some t) v) in
      (
        rest.0,
        All-append (process_tick a (some t)).2 _ (process_tick-IsAligned a (some t) v) rest.1,
      )
