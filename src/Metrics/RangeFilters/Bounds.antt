-- ===== src/Metrics/RangeFilters/Bounds.antt =====
-- internal/metrics/range_filters.go: the range of some bars is that of their highs and lows.
use stock_scanner.Prelude.{
  ℕ, suc, zero, ◌-◌, ◌<◌, ◌≤◌, String, ◌≡◌, refl, true, ◌⊎◌, inl, some, List, [], ◌∷◌, arith, All,
  Any, length, drop, leb,
}
use stock_scanner.Prelude.Options.{last_n}
use stock_scanner.Float.{Float, IsOrdered}
use stock_scanner.Models.Market.{Bar1m}
use stock_scanner.Scanner.Snapshot.{SymbolStateSnapshot}
use stock_scanner.Metrics.RangeFilters.{
  Range, widen, widen_all, window_range, width, range_computer,
}

drop-pos : {A : Type 0} (k : ℕ) (xs : List A) → k < length xs → 0 < length (drop k xs)
drop-pos k [] h = absurd (omega arith)
drop-pos zero (x ∷ xs) h = omega arith
drop-pos (suc k) (x ∷ xs) h = drop-pos k xs (omega arith)

module _ {F : Type 0} ⦃fl : Float F⦄ where
  -- The high and the low of the bar are not NaN.
  abbrev pub HasNumbers : Bar1m F → Type 0
  HasNumbers b = (fl.eq b.high b.high ≡ true) × (fl.eq b.low b.low ≡ true)

  abbrev IsProper : Range F → Type 0
  IsProper r = (fl.eq r.high r.high ≡ true) × (fl.eq r.low r.low ≡ true)

  -- The high is the greatest of the bars' highs, and the low the least of their lows.
  pub record IsRangeOf (r : Range F) (bars : List (Bar1m F)) : Type 0 where
    pub covers : All (λ b. (fl.le b.high r.high ≡ true) × (fl.le r.low b.low ≡ true)) bars
    pub high_from : Any (λ b. r.high ≡ b.high) bars
    pub low_from : Any (λ b. r.low ≡ b.low) bars

  record Widened (r r' : Range F) (bars : List (Bar1m F)) : Type 0 where
    proper : IsProper r'
    grows : (fl.le r.high r'.high ≡ true) × (fl.le r'.low r.low ≡ true)
    covers : All (λ b. (fl.le b.high r'.high ≡ true) × (fl.le r'.low b.low ≡ true)) bars
    high_from : (r'.high ≡ r.high) ⊎ Any (λ b. r'.high ≡ b.high) bars
    low_from : (r'.low ≡ r.low) ⊎ Any (λ b. r'.low ≡ b.low) bars

  module _ (ord : IsOrdered F) where
    abbrev Step : Range F → Bar1m F → Range F → Type 0
    Step r b r' =
        IsProper r'
        × ((fl.le r.high r'.high ≡ true) × (fl.le r'.low r.low ≡ true))
        × ((fl.le b.high r'.high ≡ true) × (fl.le r'.low b.low ≡ true))
        × ((r'.high ≡ r.high) ⊎ (r'.high ≡ b.high))
        × ((r'.low ≡ r.low) ⊎ (r'.low ≡ b.low))

    widen-Step :
        (r : Range F) (b : Bar1m F) → IsProper r → HasNumbers b → Step r b (widen r b.high b.low)
    unfolding widen
    widen-Step r b p n = ground (
      arith,
      ord.le_refl r.high,
      ord.le_refl r.low,
      ord.le_refl b.high,
      ord.le_refl b.low,
      ord.lt_le r.high b.high,
      ord.lt_le b.low r.low,
      ord.lt_flip r.high b.high,
      ord.lt_flip b.low r.low,
    )

    widen_all-Widened :
        (r : Range F) (bars : List (Bar1m F))
        → IsProper r
        → All HasNumbers bars
        → Widened r (widen_all r bars) bars
    unfolding widen_all
    widen_all-Widened r [] p n = record {
      proper = p;
      grows = (ord.le_refl r.high p.0, ord.le_refl r.low p.1);
      covers = tt;
      high_from = inl refl;
      low_from = inl refl;
    }
    widen_all-Widened r (b ∷ bs) p n =
        let s = widen-Step r b p n.0 in
        let w = widen_all-Widened (widen r b.high b.low) bs s.0 n.1 in
        record {
          proper = w.proper;
          grows = (ord.le_trans _ _ _ s.1.0 w.grows.0, ord.le_trans _ _ _ w.grows.1 s.1.1);
          covers =
              ((ord.le_trans _ _ _ s.2.0 w.grows.0, ord.le_trans _ _ _ w.grows.1 s.2.1), w.covers);
          high_from = ground (arith, w.high_from, s.3);
          low_from = ground (arith, w.low_from, s.4);
        }

    window_range-IsRangeOf :
        (bars : List (Bar1m F))
        → 0 < length bars
        → All HasNumbers bars
        → (r : Range F) × (window_range bars ≡ some r) × IsRangeOf r bars
    unfolding window_range
    window_range-IsRangeOf [] p n = absurd (omega arith)
    window_range-IsRangeOf (b ∷ bs) p n =
        let w = widen_all-Widened (record { high = b.high; low = b.low }) bs n.0 n.1 in
        (
          widen_all (record { high = b.high; low = b.low }) bs,
          refl,
          record { covers = (w.grows, w.covers); high_from = w.high_from; low_from = w.low_from },
        )

    -- Once there are n > 0 bars, range_{n}m is high - low for the greatest high and the least low of
    -- the last n bars, if those are numbers.
    pub range_computer-IsRangeOf :
        (name : String) (n now : ℕ) (s : SymbolStateSnapshot F)
        → 0 < n
        → n ≤ length s.last_final_bars
        → All HasNumbers (last_n n s.last_final_bars)
        → (r : Range F) × ((range_computer name n).compute now s ≡ some (width r))
          × IsRangeOf r (last_n n s.last_final_bars)
    unfolding range_computer
    range_computer-IsRangeOf name n now s p h numbers =
        let window = drop-pos (length s.last_final_bars - n) s.last_final_bars (omega arith) in
        let found = window_range-IsRangeOf (last_n n s.last_final_bars) window numbers in
        let enough : leb n (length s.last_final_bars) ≡ true = ground arith in
        (found.0, rw (enough, found.1) refl, found.2)
