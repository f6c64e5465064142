-- ===== src/Scanner/State/Bars.antt =====
-- The finalized bars of a symbol, over any history of updates.
use stock_scanner.Prelude.{
  ℕ, zero, suc, ◌-◌, drop, ◌<◌, ◌≡◌, refl, sym, ap, ◌∙◌, String, false, Option, some, List, [], ◌∷◌,
  ◌++◌, arith, str_eq, eq_iff, if◌then◌else◌, Bool-cases, inl, inr, append_assoc, append-nil,
}
use stock_scanner.Float.{Float}
use stock_scanner.Int64.{is_nonpos}
use stock_scanner.Dict.{Dict, lookup, insert, get_or}
use stock_scanner.Dict.Laws.{lookup-insert}
use stock_scanner.Models.Market.{Tick, Bar1m}
use stock_scanner.Scanner.Session.{
  MarketSession, premarket, market, postmarket, closed, get_market_session,
}
use stock_scanner.Scanner.State.{
  SymbolState, StateManager, new_state_manager, push_bounded, state_of, new_symbol_state,
  apply_tick, apply_bar, apply_indicators, update_live_bar, update_finalized_bar, update_indicators,
  enter_session,
}
use stock_scanner.Scanner.State.Ring.{last_of, push_bounded-last_of}

-- What the scanner's consumers feed to the manager, each with the clock's reading.
pub data Event (F : Type 0) : Type 0 where
  tick : ℕ → String → Tick F → Event F
  bar : ℕ → Bar1m F → Event F
  values : ℕ → String → Dict F → Event F

module _ {F : Type 0} ⦃fl : Float F⦄ (eastern : Option (ℕ → ℕ)) where
  pub step : StateManager F → Event F → StateManager F
  step sm (tick now s t) = update_live_bar eastern sm now s (some t)
  step sm (bar now b) = update_finalized_bar eastern sm now (some b)
  step sm (values now s m) = update_indicators sm now s m

  pub run : StateManager F → List (Event F) → StateManager F
  run sm [] = sm
  run sm (e ∷ es) = run (step sm e) es

module _ {F : Type 0} where
  -- The finalized bars of a symbol in a history, oldest first.
  abbrev pub bars_of : String → List (Event F) → List (Bar1m F)
  bars_of s [] = []
  bars_of s (bar now b ∷ es) = if str_eq b.symbol s then b ∷ bars_of s es else bars_of s es
  bars_of s (tick now s' t ∷ es) = bars_of s es
  bars_of s (values now s' m ∷ es) = bars_of s es

module _ {F : Type 0} ⦃fl : Float F⦄ where
  entered_bars :
      (st : SymbolState F) (session : MarketSession) (t : ℕ)
      → (enter_session st session t).last_final_bars ≡ st.last_final_bars
  unfolding enter_session
  entered_bars st premarket t = ground arith
  entered_bars st market t = ground arith
  entered_bars st postmarket t = ground arith
  entered_bars st closed t = ground arith

  ticked_bars :
      (now : ℕ) (session : MarketSession) (s : String) (t : Tick F) (st : SymbolState F)
      → (apply_tick now session s t st).last_final_bars ≡ st.last_final_bars
  unfolding apply_tick
  ticked_bars now premarket s t st = ground (arith, entered_bars st premarket t.timestamp)
  ticked_bars now market s t st = ground (arith, entered_bars st market t.timestamp)
  ticked_bars now postmarket s t st = ground (arith, entered_bars st postmarket t.timestamp)
  ticked_bars now closed s t st = ground (arith, entered_bars st closed t.timestamp)

  barred_bars :
      (max now : ℕ) (session : MarketSession) (b : Bar1m F) (st : SymbolState F)
      → (apply_bar max now session b st).last_final_bars ≡ push_bounded max st.last_final_bars b
  barred_bars max now session b st =
      unfold apply_bar push_bounded in
      ap (λ xs. push_bounded max xs b) (entered_bars st session b.timestamp)

  pub state_of-insert :
      (sm : StateManager F) (k s : String) (st : SymbolState F)
      → state_of (record sm { states = insert k st sm.states }) s
        ≡ (if str_eq k s then st else state_of sm s)
  unfolding state_of get_or
  state_of-insert sm k s st = ground (arith, lookup-insert k s st sm.states)

  -- The finalized bars kept for a symbol; none before its state is created.
  abbrev pub kept_bars : String → StateManager F → List (Bar1m F)
  kept_bars s sm = (state_of sm s).last_final_bars

  kept_bars-insert :
      (sm : StateManager F) (k s : String) (st : SymbolState F)
      → st.last_final_bars ≡ (state_of sm k).last_final_bars
      → kept_bars s (record sm { states = insert k st sm.states }) ≡ kept_bars s sm
  kept_bars-insert sm k s st e = ground (arith, state_of-insert sm k s st, eq_iff k s)

module _ {F : Type 0} ⦃fl : Float F⦄ (eastern : Option (ℕ → ℕ)) where
  step_max :
      (sm : StateManager F) (e : Event F) → (step eastern sm e).max_final_bars ≡ sm.max_final_bars
  unfolding step update_live_bar update_finalized_bar update_indicators
  step_max sm (tick now s t) = refl
  step_max sm (bar now b) = refl
  step_max sm (values now s m) = refl

  abbrev pushed : ℕ → String → List (Bar1m F) → Event F → List (Bar1m F)
  pushed n s xs (bar now b) = if str_eq b.symbol s then push_bounded n xs b else xs
  pushed n s xs (tick now s' t) = xs
  pushed n s xs (values now s' m) = xs

  step_bars :
      (sm : StateManager F) (e : Event F) (s : String)
      → kept_bars s (step eastern sm e) ≡ pushed sm.max_final_bars s (kept_bars s sm) e
  unfolding step update_live_bar update_finalized_bar update_indicators apply_indicators
  step_bars sm (tick now k t) s =
      let session = get_market_session eastern t.timestamp in
      kept_bars-insert sm k s (apply_tick now session k t (state_of sm k))
        (ticked_bars now session k t (state_of sm k))
  step_bars sm (bar now b) s =
      let session = get_market_session eastern b.timestamp in
      let st = apply_bar sm.max_final_bars now session b (state_of sm b.symbol) in
      ground (
        arith,
        state_of-insert sm b.symbol s st,
        eq_iff b.symbol s,
        barred_bars sm.max_final_bars now session b (state_of sm b.symbol),
      )
  step_bars sm (values now k m) s =
      kept_bars-insert sm k s (apply_indicators now m (state_of sm k)) refl

  bars_of-cons :
      (e : Event F) (es : List (Event F)) (s : String)
      → bars_of s (e ∷ es) ≡ bars_of s (e ∷ []) ++ bars_of s es
  bars_of-cons (tick now k t) es s = refl
  bars_of-cons (bar now b) es s = ground arith
  bars_of-cons (values now k m) es s = refl

  pushed-last_of :
      (n : ℕ) (s : String) (seen : List (Bar1m F)) (e : Event F)
      → 0 < n
      → pushed n s (last_of n seen) e ≡ last_of n (seen ++ bars_of s (e ∷ []))
  pushed-last_of n s seen (tick now k t) p = ap (last_of n) (sym (append-nil seen))
  pushed-last_of n s seen (bar now b) p = elim (Bool-cases (str_eq b.symbol s)) [
    | inl own ↦ rw own (push_bounded-last_of n seen b p)
    | inr other ↦ rw other (ap (last_of n) (sym (append-nil seen)))
  ]
  pushed-last_of n s seen (values now k m) p = ap (last_of n) (sym (append-nil seen))

  run_bars :
      (n : ℕ) (sm : StateManager F) (es : List (Event F)) (s : String) (seen : List (Bar1m F))
      → 0 < n
      → sm.max_final_bars ≡ n
      → kept_bars s sm ≡ last_of n seen
      → kept_bars s (run eastern sm es) ≡ last_of n (seen ++ bars_of s es)
  unfolding run
  run_bars n sm [] s seen p m h = rw append-nil h
  run_bars n sm (e ∷ es) s seen p m h =
      let added = bars_of s (e ∷ []) in
      let kept : kept_bars s (step eastern sm e) ≡ last_of n (seen ++ added) =
        step_bars sm e s
        ∙ ap (λ k. pushed k s (kept_bars s sm) e) m
        ∙ ap (λ xs. pushed n s xs e) h
        ∙ pushed-last_of n s seen e p in
      run_bars n (step eastern sm e) es s (seen ++ added) p (step_max sm e ∙ m) kept
      ∙ ap (last_of n) (
          append_assoc seen added (bars_of s es)
          ∙ ap (λ xs. seen ++ xs) (sym (bars_of-cons e es s)))

  drop-nil : (k : ℕ) → drop {A = Bar1m F} k [] ≡ []
  drop-nil zero = refl
  drop-nil (suc k) = refl

  -- From a new manager for at most `n` bars a symbol, after any history of ticks, finalized bars
  -- and indicator values of any symbols, the bars kept for a symbol are the last `n` of that
  -- symbol's finalized bars, in the order of their arrival.
  pub run-last_of :
      (n : ℕ) (es : List (Event F)) (s : String)
      → is_nonpos n ≡ false
      → kept_bars s (run eastern (new_state_manager n) es) ≡ last_of n (bars_of s es)
  unfolding new_state_manager state_of new_symbol_state get_or lookup
  run-last_of n es s p =
      run_bars n (new_state_manager n) es s [] (ground arith) (ground arith)
        (sym (drop-nil (0 - n)))
