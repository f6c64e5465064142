-- ===== src/Scanner/State/Sessions.antt =====
-- The sessions of a state: its volumes and prices of the day.
use stock_scanner.Prelude.{ℕ, ◌%◌, ◌<◌, ◌≡◌, refl, ◌∙◌, String, false, List, [], ◌∷◌, arith}
use stock_scanner.Float.{Float, zero_f}
use stock_scanner.Int64.{add, word, sum}
use stock_scanner.Dict.{Dict}
use stock_scanner.Models.Market.{Tick, Bar1m}
use stock_scanner.Scanner.Session.{
  MarketSession, premarket, market, postmarket, closed, same_session,
}
use stock_scanner.Scanner.State.{
  SymbolState, apply_tick, apply_bar, apply_indicators, enter_session, track_prices,
}

-- What is fed to the state of one symbol, each with its session
pub data Feed (F : Type 0) : Type 0 where
  tick : ℕ → MarketSession → String → Tick F → Feed F
  bar : ℕ → ℕ → MarketSession → Bar1m F → Feed F
  values : ℕ → Dict F → Feed F

module _ {F : Type 0} ⦃fl : Float F⦄ where
  pub feed : SymbolState F → Feed F → SymbolState F
  feed st (tick now session s t) = apply_tick now session s t st
  feed st (bar max now session b) = apply_bar max now session b st
  feed st (values now m) = apply_indicators now m st

  pub feed_all : SymbolState F → List (Feed F) → SymbolState F
  feed_all st [] = st
  feed_all st (x ∷ xs) = feed_all (feed st x) xs

  entered_open :
      (st : SymbolState F) (session : MarketSession) (t : ℕ)
      → (enter_session st session t).today_open ≡ st.today_open
  unfolding enter_session
  entered_open st premarket t = ground arith
  entered_open st market t = ground arith
  entered_open st postmarket t = ground arith
  entered_open st closed t = ground arith

  feed-open :
      (st : SymbolState F) (x : Feed F)
      → fl.eq st.today_open zero_f ≡ false
      → (feed st x).today_open ≡ st.today_open
  unfolding feed apply_tick apply_bar track_prices apply_indicators
  feed-open st (tick now premarket s t) h = entered_open st premarket t.timestamp
  feed-open st (tick now market s t) h = entered_open st market t.timestamp
  feed-open st (tick now postmarket s t) h = entered_open st postmarket t.timestamp
  feed-open st (tick now closed s t) h = entered_open st closed t.timestamp
  feed-open st (bar max now session b) h = ground (arith, entered_open st session b.timestamp)
  feed-open st (values now m) h = refl

  -- The opening price of the day, once it is not 0, is kept for ever: no session, tick or bar of
  -- a later day changes it.
  pub feed_all-open :
      (st : SymbolState F) (xs : List (Feed F))
      → fl.eq st.today_open zero_f ≡ false
      → (feed_all st xs).today_open ≡ st.today_open
  unfolding feed_all
  feed_all-open st [] h = refl
  feed_all-open st (x ∷ xs) h =
      let kept = feed-open st x h in feed_all-open (feed st x) xs (ground (arith, kept)) ∙ kept

  abbrev pub sizes : List (Tick F) → List ℕ
  sizes [] = []
  sizes (t ∷ ts) = t.size ∷ sizes ts

  abbrev pub feed_ticks : SymbolState F → MarketSession → List (Tick F) → SymbolState F
  feed_ticks st session [] = st
  feed_ticks st session (t ∷ ts) = feed_ticks (apply_tick 0 session t.symbol t st) session ts

  record HasVolumes (st : SymbolState F) (session : MarketSession) (pre reg post : ℕ) : Type 0 where
    current : st.current_session ≡ session
    pre_eq : st.premarket_volume ≡ pre
    reg_eq : st.market_volume ≡ reg
    post_eq : st.postmarket_volume ≡ post

  premarket_ticks :
      (st : SymbolState F) (ts : List (Tick F)) (pre reg post : ℕ)
      → pre < word
      → HasVolumes st premarket pre reg post
      → HasVolumes (feed_ticks st premarket ts) premarket (add pre (sum (sizes ts))) reg post
  unfolding apply_tick enter_session
  premarket_ticks st [] pre reg post p v = ground arith
  premarket_ticks st (t ∷ ts) pre reg post p v = ground (
    arith,
    premarket_ticks (apply_tick 0 premarket t.symbol t st) ts (add pre t.size) reg post
        (omega arith) (ground arith),
  )

  market_ticks :
      (st : SymbolState F) (ts : List (Tick F)) (pre reg post : ℕ)
      → reg < word
      → HasVolumes st market pre reg post
      → HasVolumes (feed_ticks st market ts) market pre (add reg (sum (sizes ts))) post
  unfolding apply_tick enter_session
  market_ticks st [] pre reg post p v = ground arith
  market_ticks st (t ∷ ts) pre reg post p v = ground (
    arith,
    market_ticks (apply_tick 0 market t.symbol t st) ts pre (add reg t.size) post (omega arith)
        (ground arith),
  )

  postmarket_ticks :
      (st : SymbolState F) (ts : List (Tick F)) (pre reg post : ℕ)
      → post < word
      → HasVolumes st postmarket pre reg post
      → HasVolumes (feed_ticks st postmarket ts) postmarket pre reg (add post (sum (sizes ts)))
  unfolding apply_tick enter_session
  postmarket_ticks st [] pre reg post p v = ground arith
  postmarket_ticks st (t ∷ ts) pre reg post p v = ground (
    arith,
    postmarket_ticks (apply_tick 0 postmarket t.symbol t st) ts pre reg (add post t.size)
        (omega arith) (ground arith),
  )

  premarket_day :
      (st : SymbolState F) (t : Tick F) (ts : List (Tick F))
      → st.current_session ≡ closed
      → HasVolumes (feed_ticks st premarket (t ∷ ts)) premarket (sum (sizes (t ∷ ts))) 0 0
  unfolding apply_tick enter_session
  premarket_day st t ts h =
      let pre =
        premarket_ticks (apply_tick 0 premarket t.symbol t st) ts (t.size % word) 0 0 (omega arith)
          (ground arith) in
      ground (arith, pre)

  market_day :
      (st : SymbolState F) (u : Tick F) (us : List (Tick F)) (pre post : ℕ)
      → HasVolumes st premarket pre 0 post
      → HasVolumes (feed_ticks st market (u ∷ us)) market pre (sum (sizes (u ∷ us))) post
  unfolding apply_tick enter_session
  market_day st u us pre post v =
      let reg =
        market_ticks (apply_tick 0 market u.symbol u st) us pre (u.size % word) post (omega arith)
          (ground (arith, v)) in
      ground (arith, reg)

  -- A day of ticks on a closed state, some in each session and the sessions in their order: each
  -- session's volume is the sum of the sizes of its ticks, modulo 2^64, whatever the volumes were.
  pub day_volumes :
      (st : SymbolState F) (t u v : Tick F) (ts us vs : List (Tick F))
      → st.current_session ≡ closed
      → let st' =
          feed_ticks
            (feed_ticks (feed_ticks st premarket (t ∷ ts)) market (u ∷ us))
            postmarket
            (v ∷ vs) in
        (st'.premarket_volume ≡ sum (sizes (t ∷ ts)))
        × (st'.market_volume ≡ sum (sizes (u ∷ us)))
        × (st'.postmarket_volume ≡ sum (sizes (v ∷ vs)))
  unfolding apply_tick enter_session
  day_volumes st t u v ts us vs h =
      let pre =
        premarket_ticks (apply_tick 0 premarket t.symbol t st) ts (t.size % word) 0 0 (omega arith)
          (ground arith) in
      let st1 = feed_ticks st premarket (t ∷ ts) in
      let reg =
        market_ticks (apply_tick 0 market u.symbol u st1) us (sum (sizes (t ∷ ts))) (u.size % word)
          0 (omega arith) (ground (arith, pre)) in
      let st2 = feed_ticks st1 market (u ∷ us) in
      let post =
        postmarket_ticks (apply_tick 0 postmarket v.symbol v st2) vs (sum (sizes (t ∷ ts)))
          (sum (sizes (u ∷ us))) (v.size % word) (omega arith) (ground (arith, reg)) in
      ground (arith, post)

  late_reset :
      (st : SymbolState F) (max now : ℕ) (b : Bar1m F)
      → same_session premarket st.current_session ≡ false
      → HasVolumes (apply_bar max now premarket b st) premarket 0 0 0
  unfolding apply_bar enter_session
  late_reset st max now b h = ground arith

  -- On a closed state, ticks of the pre-market and then of the market arrive, and then a pre-market
  -- bar that started before the first tick of the market, as when that tick finalizes it. The
  -- volumes of both sessions, which were the sums of the sizes of their ticks modulo 2^64, are
  -- lost: they are 0, and after further ticks of the market its volume counts these alone.
  pub late_bar_volumes :
      (st : SymbolState F) (max now : ℕ) (t u v : Tick F) (ts us vs : List (Tick F)) (b : Bar1m F)
      → st.current_session ≡ closed
      → b.timestamp < u.timestamp
      → let before = feed_ticks (feed_ticks st premarket (t ∷ ts)) market (u ∷ us) in
        let late = apply_bar max now premarket b before in
        let after = feed_ticks late market (v ∷ vs) in
        (before.premarket_volume ≡ sum (sizes (t ∷ ts)))
        × (before.market_volume ≡ sum (sizes (u ∷ us)))
        × (late.premarket_volume ≡ 0)
        × (late.market_volume ≡ 0)
        × (after.premarket_volume ≡ 0)
        × (after.market_volume ≡ sum (sizes (v ∷ vs)))
  unfolding same_session
  late_bar_volumes st max now t u v ts us vs b h older =
      let st1 = feed_ticks st premarket (t ∷ ts) in
      let before = feed_ticks st1 market (u ∷ us) in
      let pre = premarket_day st t ts h in
      let reg = market_day st1 u us (sum (sizes (t ∷ ts))) 0 pre in
      let late = late_reset before max now b (rw (reg.current) refl) in
      let after = market_day (apply_bar max now premarket b before) v vs 0 0 late in
      (reg.pre_eq, reg.reg_eq, late.pre_eq, late.reg_eq, after.pre_eq, after.reg_eq)
