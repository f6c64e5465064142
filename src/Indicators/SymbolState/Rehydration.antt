-- ===== src/Indicators/SymbolState/Rehydration.antt =====
-- pkg/indicator/state.go: rehydrating a state is resetting it and updating it with each bar, whatever it
-- has seen before.
use stock_scanner.Prelude.{
  ℕ, ◌≡◌, refl, ap, sym, ◌∙◌, some, List, [], ◌∷◌, str_eq, Bool-cases, inl, inr,
}
use stock_scanner.Dict.{Dict}
use stock_scanner.Models.Market.{Bar1m}
use stock_scanner.Indicators.Calculator.{Calculator, IsResettable}
use stock_scanner.Indicators.SymbolState.{
  SymbolState, update_calculators, reset_calculators, take_bar, take_bars, update_state,
  reset_state, rehydrate,
}

abbrev pub bars_of : {F : Type 0} → List (ℕ × Bar1m F) → List (Bar1m F)
bars_of [] = []
bars_of ((now, b) ∷ rest) = b ∷ bars_of rest

module _ {F S : Type 0} ⦃calc : Calculator F S⦄ where
  -- Update with each of the bars, at these readings of the clock
  abbrev pub update_states : List (ℕ × Bar1m F) → SymbolState F S → SymbolState F S
  update_states [] st = st
  update_states ((now, b) ∷ rest) st = update_states rest (update_state now (some b) st)

  -- But for the time of the last update
  abbrev pub timeless : SymbolState F S → SymbolState F S
  timeless st = record st { last_update = 0 }

  take_bars-timeless :
      (t : ℕ) (bs : List (Bar1m F)) (st : SymbolState F S)
      → timeless (take_bars bs (record st { last_update = t })) ≡ timeless (take_bars bs st)
  unfolding take_bars take_bar
  take_bars-timeless t [] st = refl
  take_bars-timeless t (b ∷ bs) st = elim (Bool-cases (str_eq b.symbol st.symbol)) [
    | inl e ↦ rw (take_bars, e) (take_bars-timeless t bs (take_bar b st))
    | inr e ↦ rw (take_bars, e) (take_bars-timeless t bs st)
  ]

  update_states-take_bars :
      (fed : List (ℕ × Bar1m F)) (st : SymbolState F S)
      → timeless (update_states fed st) ≡ timeless (take_bars (bars_of fed) st)
  unfolding update_state take_bars
  update_states-take_bars [] st = refl
  update_states-take_bars ((now, b) ∷ rest) st = elim (Bool-cases (str_eq b.symbol st.symbol)) [
    | inl e ↦
        rw (update_states, take_bars, e)
          (update_states-take_bars rest (record (take_bar b st) { last_update = now })
            ∙ take_bars-timeless now (bars_of rest) (take_bar b st))
    | inr e ↦ rw (update_states, take_bars, e) (update_states-take_bars rest st)
  ]

  module _ ⦃laws : IsResettable F S⦄ where
    reset-update_calculators :
        (b : Bar1m F) (cs : Dict S)
        → reset_calculators calc.reset (update_calculators b cs) ≡ reset_calculators calc.reset cs
    unfolding reset_calculators update_calculators
    reset-update_calculators b [] = refl
    reset-update_calculators b ((name, c) ∷ rest) =
        rw (laws.reset-update (some b) c, reset-update_calculators b rest) refl

    reset-update_states :
        (fed : List (ℕ × Bar1m F)) (st : SymbolState F S)
        → reset_state (update_states fed st) ≡ reset_state st
    unfolding reset_state update_state take_bar
    reset-update_states [] st = refl
    reset-update_states ((now, b) ∷ rest) st =
        reset-update_states rest (update_state now (some b) st)
        ∙ elim (Bool-cases (str_eq b.symbol st.symbol)) [
          | inl e ↦ rw (e, reset-update_calculators b st.calculators) refl
          | inr e ↦ rw e refl
        ]

    -- Rehydrating a state with some bars gives, but for the time of the last update, what updating it
    -- with each of them after a reset gives: the bars and calculators do not depend on what the
    -- state has seen. The calculators' Reset forgets what they have seen.
    pub rehydrate-update_states :
        (seen fed : List (ℕ × Bar1m F)) (st : SymbolState F S)
        → timeless (rehydrate (bars_of fed) (update_states seen st))
          ≡ timeless (update_states fed (reset_state st))
    unfolding rehydrate reset_state
    rehydrate-update_states seen fed st =
        let kept = update_states seen st in
        sym (
          take_bars-timeless 0 (bars_of fed) (record kept {
            bars = [];
            calculators = reset_calculators calc.reset kept.calculators;
          }))
        ∙ ap (λ s. timeless (take_bars (bars_of fed) s)) (reset-update_states seen st)
        ∙ sym (update_states-take_bars fed (reset_state st))
