-- ===== src/Indicators/Windows/InWindow.antt =====
-- The bars of a window: dropping bars as each one arrives keeps the bars that the latest cutoff keeps
-- of the whole history.
use stock_scanner.Prelude.{
  Result, ok, err, Bool-cases, inl, inr, ℕ, ◌-◌, ◌≤◌, ◌≡◌, refl, ap, sym, ◌∙◌, Bool, true, false,
  some, List, [], ◌∷◌, ◌++◌, arith, if◌then◌else◌, leb, append_assoc, append-nil, length,
  length-append,
}
use stock_scanner.Float.{Float}
use stock_scanner.Models.Market.{Bar1m}
use stock_scanner.Indicators.Calculator.{IndicatorError, not_ready}
use stock_scanner.Indicators.Windows.{
  Windowed, filter_bars_by_time, slide, reset_windowed, update_vwap, update_volume_average,
  update_price_change, calculate_vwap, calculate_average, calculate_change, vwap_value,
  volume_average_value, price_change_value,
}

module _ {F : Type 0} where
  filter-append :
      (cutoff : ℕ) (xs ys : List (Bar1m F))
      → filter_bars_by_time cutoff (xs ++ ys)
        ≡ filter_bars_by_time cutoff xs ++ filter_bars_by_time cutoff ys
  unfolding filter_bars_by_time
  filter-append cutoff [] ys = refl
  filter-append cutoff (b ∷ bs) ys = rw (filter-append cutoff bs ys) (ground arith)

  filter-filter :
      (early late : ℕ) (xs : List (Bar1m F))
      → early ≤ late
      → filter_bars_by_time late (filter_bars_by_time early xs) ≡ filter_bars_by_time late xs
  unfolding filter_bars_by_time
  filter-filter early late [] h = refl
  filter-filter early late (b ∷ bs) h = ground (arith, filter-filter early late bs h)

  -- Each bar is not earlier than the one before it.
  abbrev pub IsInOrder : ℕ → List (Bar1m F) → Type 0
  IsInOrder t [] = Unit {0}
  IsInOrder t (b ∷ bs) = (t ≤ b.timestamp) × IsInOrder b.timestamp bs

  abbrev pub last_time : ℕ → List (Bar1m F) → ℕ
  last_time t [] = t
  last_time t (b ∷ bs) = last_time b.timestamp bs

  -- A step that slides the window, whatever it does to the other fields
  abbrev Slides : (Bar1m F → Windowed F → Windowed F) → Type 0
  Slides step =
      (b : Bar1m F) (v : Windowed F)
      → ((step b v).bars ≡ (slide b v).bars) × ((step b v).window ≡ v.window)

  abbrev pub run_steps :
      (Bar1m F → Windowed F → Windowed F) → Windowed F → List (Bar1m F) → Windowed F
  run_steps step v [] = v
  run_steps step v (b ∷ bs) = run_steps step (step b v) bs

  run_steps-bars :
      (step : Bar1m F → Windowed F → Windowed F)
      → Slides step
      → (w t : ℕ) (v : Windowed F) (seen bs : List (Bar1m F)) → v.window ≡ w
      → v.bars ≡ filter_bars_by_time (t - w) seen
      → IsInOrder t bs
      → (run_steps step v bs).bars ≡ filter_bars_by_time (last_time t bs - w) (seen ++ bs)
  unfolding slide
  run_steps-bars step slides w t v seen [] e h o =
      h ∙ ap (λ xs. filter_bars_by_time (t - w) xs) (sym (append-nil seen))
  run_steps-bars step slides w t v seen (b ∷ bs) e h o =
      run_steps-bars step slides w b.timestamp (step b v) (seen ++ b ∷ []) bs ((slides b v).1 ∙ e)
        ((slides b v).0
          ∙ rw
              (
                e,
                h,
                filter-append (b.timestamp - w) (filter_bars_by_time (t - w) seen) (b ∷ []),
                filter-filter (t - w) (b.timestamp - w) seen (omega arith),
                filter-append (b.timestamp - w) seen (b ∷ []),
              )
              refl)
        o.1
      ∙ ap (λ xs. filter_bars_by_time (last_time b.timestamp bs - w) xs)
          (append_assoc seen (b ∷ []) bs)

  -- The new bar is in the window.
  slide-NonEmpty : (b : Bar1m F) (v : Windowed F) → leb 1 (length (slide b v).bars) ≡ true
  unfolding slide filter_bars_by_time
  slide-NonEmpty b v =
      let kept : leb (b.timestamp - v.window) b.timestamp ≡ true = ground arith in
      rw (filter-append (b.timestamp - v.window) v.bars (b ∷ []), kept)
        (ground
          (arith, length-append (filter_bars_by_time (b.timestamp - v.window) v.bars) (b ∷ [])))

  slide-window : (b : Bar1m F) (v : Windowed F) → (slide b v).window ≡ v.window
  unfolding slide
  slide-window b v = refl

  -- From a reset on, the window has the bars of the history that the latest cutoff keeps.
  run_steps-reset :
      (step : Bar1m F → Windowed F → Windowed F)
      → Slides step
      → (v : Windowed F) (b : Bar1m F) (bs : List (Bar1m F)) → IsInOrder b.timestamp bs
      → (run_steps step (reset_windowed v) (b ∷ bs)).bars
        ≡ filter_bars_by_time (last_time b.timestamp bs - v.window) (b ∷ bs)
  unfolding reset_windowed filter_bars_by_time
  run_steps-reset step slides v b bs o =
      run_steps-bars step slides v.window 0 (reset_windowed v) [] (b ∷ bs) refl refl
        (omega arith, o)

  -- A property of the state that each step brings about holds after any steps.
  run_steps-last :
      (step : Bar1m F → Windowed F → Windowed F) (P : Windowed F → Type 0)
      → ((b : Bar1m F) (v : Windowed F) → P (step b v))
      → (v : Windowed F) (b : Bar1m F) (bs : List (Bar1m F)) → P (run_steps step v (b ∷ bs))
  run_steps-last step P each v b [] = each b v
  run_steps-last step P each v b (c ∷ bs) = run_steps-last step P each (step b v) c bs

module _ {F : Type 0} ⦃fl : Float F⦄ where
  abbrev pub vwap_step : Bar1m F → Windowed F → Windowed F
  vwap_step b v = (update_vwap (some b) v).1

  abbrev pub average_step : Bar1m F → Windowed F → Windowed F
  average_step b v = (update_volume_average (some b) v).1

  abbrev pub change_step : Bar1m F → Windowed F → Windowed F
  change_step b v = (update_price_change (some b) v).1

  ready-if :
      (t : Bool) (x y : Result IndicatorError F) (v : Windowed F)
      → (if◌then◌else◌ {A = Result IndicatorError F × Windowed F} t
          (x, record v { ready = true })
          (y, record v { ready = false })).1
        ≡ record v { ready = t }
  ready-if true x y v = refl
  ready-if false x y v = refl

  pub vwap_step-slide :
      (b : Bar1m F) (v : Windowed F) → vwap_step b v ≡ record (slide b v) { ready = true }
  unfolding update_vwap
  vwap_step-slide b v =
      ready-if (leb 1 (length (slide b v).bars)) _ _ (slide b v)
      ∙ ap (λ t. record (slide b v) { ready = t }) (slide-NonEmpty b v)

  pub average_step-slide :
      (b : Bar1m F) (v : Windowed F) → average_step b v ≡ record (slide b v) { ready = true }
  unfolding update_volume_average
  average_step-slide b v =
      ready-if (leb 1 (length (slide b v).bars)) _ _ (slide b v)
      ∙ ap (λ t. record (slide b v) { ready = t }) (slide-NonEmpty b v)

  pub change_step-slide :
      (b : Bar1m F) (v : Windowed F)
      → change_step b v ≡ record (slide b v) { ready = leb 2 (length (slide b v).bars) }
  unfolding update_price_change
  change_step-slide b v = ready-if (leb 2 (length (slide b v).bars)) _ _ (slide b v)

  -- The bars of the window after the bars b ∷ bs
  abbrev pub window_bars : Windowed F → Bar1m F → List (Bar1m F) → List (Bar1m F)
  window_bars v b bs = filter_bars_by_time (last_time b.timestamp bs - v.window) (b ∷ bs)

  vwap-Slides : Slides vwap_step
  vwap-Slides b v = (
    ap (λ u. u.bars) (vwap_step-slide b v),
    ap (λ u. u.window) (vwap_step-slide b v) ∙ slide-window b v,
  )

  average-Slides : Slides average_step
  average-Slides b v = (
    ap (λ u. u.bars) (average_step-slide b v),
    ap (λ u. u.window) (average_step-slide b v) ∙ slide-window b v,
  )

  change-Slides : Slides change_step
  change-Slides b v = (
    ap (λ u. u.bars) (change_step-slide b v),
    ap (λ u. u.window) (change_step-slide b v) ∙ slide-window b v,
  )

  vwap_value-ready : (v : Windowed F) → v.ready ≡ true → vwap_value v ≡ ok (calculate_vwap v.bars)
  unfolding vwap_value
  vwap_value-ready v h = rw h refl

  volume_average_value-ready :
      (v : Windowed F) → v.ready ≡ true → volume_average_value v ≡ ok (calculate_average v.bars)
  unfolding volume_average_value
  volume_average_value-ready v h = rw h refl

  price_change_value-ready :
      (v : Windowed F)
      → v.ready ≡ leb 2 (length v.bars)
      → price_change_value v
        ≡ (if leb 2 (length v.bars) then ok (calculate_change v.bars) else err not_ready)
  unfolding price_change_value
  price_change_value-ready v h = elim (Bool-cases (leb 2 (length v.bars))) [
    | inl e ↦ rw (price_change_value, h, e) refl
    | inr e ↦ rw (price_change_value, h, e) refl
  ]

  -- Fed bars in the order of their times after a reset, the three indicators have the value that
  -- their formula gives on those bars of the whole history that are not older than the last one's
  -- time less the window. For the price change this takes two such bars; with fewer it is not
  -- ready.
  pub windows_lem :
      (v : Windowed F) (b : Bar1m F) (bs : List (Bar1m F))
      → IsInOrder b.timestamp bs
      → (vwap_value (run_steps vwap_step (reset_windowed v) (b ∷ bs))
          ≡ ok (calculate_vwap (window_bars v b bs)))
        × (volume_average_value (run_steps average_step (reset_windowed v) (b ∷ bs))
            ≡ ok (calculate_average (window_bars v b bs)))
        × (price_change_value (run_steps change_step (reset_windowed v) (b ∷ bs)) ≡ (
            if leb 2 (length (window_bars v b bs))
            then ok (calculate_change (window_bars v b bs))
            else err not_ready))
  windows_lem v b bs o = (
    vwap_value-ready _ (
          run_steps-last vwap_step (λ u. u.ready ≡ true)
            (λ c u. ap (λ x. x.ready) (vwap_step-slide c u)) (reset_windowed v) b bs)
        ∙ ap (λ x. ok (calculate_vwap x)) (run_steps-reset vwap_step vwap-Slides v b bs o),
    volume_average_value-ready _ (
          run_steps-last average_step (λ u. u.ready ≡ true)
            (λ c u. ap (λ x. x.ready) (average_step-slide c u)) (reset_windowed v) b bs)
        ∙ ap (λ x. ok (calculate_average x)) (run_steps-reset average_step average-Slides v b bs o),
    price_change_value-ready _ (
          run_steps-last change_step (λ u. u.ready ≡ leb 2 (length u.bars))
            (λ c u. rw (change_step-slide c u) refl) (reset_windowed v) b bs)
        ∙ ap (λ x. if leb 2 (length x) then ok (calculate_change x) else err not_ready)
            (run_steps-reset change_step change-Slides v b bs o),
  )
