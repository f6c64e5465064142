-- ===== src/Models/Market/Ohlc.antt =====
-- A live bar summarises the ticks that it has seen.
use stock_scanner.Prelude.{
  ℕ, String, ◌≡◌, refl, subst, ◌∙◌, true, false, List, [], ◌∷◌, map, arith, All, Any, ◌⊎◌, inl, ◌<◌,
}
use stock_scanner.Float.{Float, IsOrdered, zero_f}
use stock_scanner.Int64.{add, sum, word}
use stock_scanner.Models.Market.{Tick, LiveBar, new_live_bar, update, update_all}

module _ {F : Type 0} ⦃fl : Float F⦄ (ord : IsOrdered F) where
  -- A price that Tick.Validate lets through, and that is not NaN.
  abbrev pub IsPrice : Tick F → Type 0
  IsPrice t = (fl.le t.price zero_f ≡ false) × (fl.eq t.price t.price ≡ true)

  price-ne-zero : (p : F) → fl.le p zero_f ≡ false → fl.eq p zero_f ≡ false
  price-ne-zero p h = ground (arith, ord.eq_le p zero_f)

  record IsStarted (lb : LiveBar F) : Type 0 where
    started : fl.eq lb.open_price zero_f ≡ false
    high_number : fl.eq lb.high lb.high ≡ true
    low_number : fl.eq lb.low lb.low ≡ true

  update-IsStarted :
      (lb : LiveBar F) (t : Tick F) → IsStarted lb → IsPrice t → IsStarted (update lb t)
  unfolding update
  update-IsStarted lb t s p = ground arith

  -- One tick moves the high to the larger of itself and the price, and the low to the smaller.
  record Covers (lb lb' : LiveBar F) (t : Tick F) : Type 0 where
    high_grows : fl.le lb.high lb'.high ≡ true
    high_covers : fl.le t.price lb'.high ≡ true
    high_from : (lb'.high ≡ t.price) ⊎ (lb'.high ≡ lb.high)
    low_falls : fl.le lb'.low lb.low ≡ true
    low_covers : fl.le lb'.low t.price ≡ true
    low_from : (lb'.low ≡ t.price) ⊎ (lb'.low ≡ lb.low)
    open_kept : lb'.open_price ≡ lb.open_price

  update-Covers :
      (lb : LiveBar F) (t : Tick F) → IsStarted lb → IsPrice t → Covers lb (update lb t) t
  unfolding update
  update-Covers lb t s p = ground (
    arith,
    ord.le_refl lb.high,
    ord.le_refl lb.low,
    ord.le_refl t.price,
    ord.lt_le lb.high t.price,
    ord.lt_le t.price lb.low,
    ord.lt_flip lb.high t.price,
    ord.lt_flip t.price lb.low,
  )

  update_all-open :
      (lb : LiveBar F) (ts : List (Tick F))
      → IsStarted lb
      → All IsPrice ts
      → (update_all lb ts).open_price ≡ lb.open_price
  unfolding update_all
  update_all-open lb [] s p = refl
  update_all-open lb (t ∷ ts) s p =
      update_all-open (update lb t) ts (update-IsStarted lb t s p.0) p.1
      ∙ (update-Covers lb t s p.0).open_kept

  update_all-high_grows :
      (lb : LiveBar F) (ts : List (Tick F))
      → IsStarted lb
      → All IsPrice ts
      → (fl.le lb.high (update_all lb ts).high ≡ true)
        × (fl.le (update_all lb ts).low lb.low ≡ true)
  unfolding update_all
  update_all-high_grows lb [] s p = (ord.le_refl _ s.high_number, ord.le_refl _ s.low_number)
  update_all-high_grows lb (t ∷ ts) s p =
      let c = update-Covers lb t s p.0 in
      let rest = update_all-high_grows (update lb t) ts (update-IsStarted lb t s p.0) p.1 in
      (ord.le_trans _ _ _ c.high_grows rest.0, ord.le_trans _ _ _ rest.1 c.low_falls)

  update_all-covers :
      (lb : LiveBar F) (ts : List (Tick F))
      → IsStarted lb
      → All IsPrice ts
      → All
          (λ t.
            (fl.le t.price (update_all lb ts).high ≡ true)
            × (fl.le (update_all lb ts).low t.price ≡ true))
          ts
  unfolding update_all
  update_all-covers lb [] s p = tt
  update_all-covers lb (t ∷ ts) s p =
      let c = update-Covers lb t s p.0 in
      let s' = update-IsStarted lb t s p.0 in
      let rest = update_all-high_grows (update lb t) ts s' p.1 in
      (
        (ord.le_trans _ _ _ c.high_covers rest.0, ord.le_trans _ _ _ rest.1 c.low_covers),
        update_all-covers (update lb t) ts s' p.1,
      )

  update_all-high_from :
      (lb : LiveBar F) (ts : List (Tick F))
      → IsStarted lb
      → All IsPrice ts
      → ((update_all lb ts).high ≡ lb.high) ⊎ Any (λ t. (update_all lb ts).high ≡ t.price) ts
  unfolding update_all
  update_all-high_from lb [] s p = inl refl
  update_all-high_from lb (t ∷ ts) s p = ground (
    arith,
    update-Covers lb t s p.0,
    update_all-high_from (update lb t) ts (update-IsStarted lb t s p.0) p.1,
  )

  update_all-low_from :
      (lb : LiveBar F) (ts : List (Tick F))
      → IsStarted lb
      → All IsPrice ts
      → ((update_all lb ts).low ≡ lb.low) ⊎ Any (λ t. (update_all lb ts).low ≡ t.price) ts
  unfolding update_all
  update_all-low_from lb [] s p = inl refl
  update_all-low_from lb (t ∷ ts) s p = ground (
    arith,
    update-Covers lb t s p.0,
    update_all-low_from (update lb t) ts (update-IsStarted lb t s p.0) p.1,
  )

  -- The first tick sets all four prices.
  update_new :
      (name : String) (start : ℕ) (t : Tick F)
      → IsPrice t
      → (IsStarted (update (new_live_bar name start) t))
        × ((update (new_live_bar name start) t).open_price ≡ t.price)
        × ((update (new_live_bar name start) t).high ≡ t.price)
        × ((update (new_live_bar name start) t).low ≡ t.price)
  unfolding update new_live_bar
  update_new name start t p = ground (arith, price-ne-zero t.price, ord.decimal_number 0 0)

module _ {F : Type 0} ⦃fl : Float F⦄ where
  abbrev sizes : List (Tick F) → List ℕ
  sizes = map (λ t. t.size)

  abbrev last_tick : Tick F → List (Tick F) → Tick F
  last_tick t [] = t
  last_tick t (u ∷ us) = last_tick u us

  pub update-volume : (lb : LiveBar F) (t : Tick F) → (update lb t).volume ≡ add lb.volume t.size
  unfolding update
  update-volume lb t = refl

  update_all-volume :
      (lb : LiveBar F) (ts : List (Tick F))
      → lb.volume < word
      → (update_all lb ts).volume ≡ add lb.volume (sum (sizes ts))
  unfolding update_all
  update_all-volume lb [] h = omega arith
  update_all-volume lb (t ∷ ts) h =
      let e = update-volume lb t in
      omega (arith, e, update_all-volume (update lb t) ts (omega (arith, e)))

  update_all-close :
      (lb : LiveBar F) (t : Tick F) (ts : List (Tick F))
      → (update_all lb (t ∷ ts)).close ≡ (last_tick t ts).price
  unfolding update_all update
  update_all-close lb t [] = refl
  update_all-close lb t (u ∷ us) = update_all-close (update lb t) u us

-- What a bar says of the ticks of its minute.
pub record Summarises {F : Type 0} ⦃fl : Float F⦄ (lb : LiveBar F) (t : Tick F) (ts : List (Tick F))
    : Type 0 where
  pub first : lb.open_price ≡ t.price
  pub final : lb.close ≡ (last_tick t ts).price
  pub bounds : All (λ u. (fl.le u.price lb.high ≡ true) × (fl.le lb.low u.price ≡ true)) (t ∷ ts)
  pub high_reached : Any (λ u. lb.high ≡ u.price) (t ∷ ts)
  pub low_reached : Any (λ u. lb.low ≡ u.price) (t ∷ ts)
  pub total : lb.volume ≡ sum (sizes (t ∷ ts))

-- A new bar that is updated with a non-empty sequence of ticks, each with a price that validation
-- lets through and that is not NaN, has the first price as open and the last as close; its high
-- and low bound every price and are reached by one; its volume is the sum of the sizes, modulo
-- 2^64.
pub update_all-Summarises :
    {F : Type 0} ⦃fl : Float F⦄ (ord : IsOrdered F) (name : String) (start : ℕ) (t : Tick F)
    (ts : List (Tick F))
    → IsPrice ord t
    → All (IsPrice ord) ts
    → Summarises (update_all (new_live_bar name start) (t ∷ ts)) t ts
unfolding update_all
update_all-Summarises ⦃fl⦄ ord name start t ts p ps =
    let lb = update (new_live_bar name start) t in
    let (s, o, h, l) = update_new ord name start t p in
    let bar = update_all lb ts in
    let grown = update_all-high_grows ord lb ts s ps in
    record {
      first = update_all-open ord lb ts s ps ∙ o;
      final = update_all-close (new_live_bar name start) t ts;
      bounds = (
        (
          subst (λ x. fl.le x bar.high ≡ true) h grown.0,
          subst (λ x. fl.le bar.low x ≡ true) l grown.1,
        ),
        update_all-covers ord lb ts s ps,
      );
      high_reached =
          subst (λ x. (bar.high ≡ x) ⊎ Any (λ u. bar.high ≡ u.price) ts) h
            (update_all-high_from ord lb ts s ps);
      low_reached =
          subst (λ x. (bar.low ≡ x) ⊎ Any (λ u. bar.low ≡ u.price) ts) l
            (update_all-low_from ord lb ts s ps);
      total =
          unfold new_live_bar in
          omega (arith, update_all-volume (new_live_bar name start) (t ∷ ts) (omega arith));
    }
