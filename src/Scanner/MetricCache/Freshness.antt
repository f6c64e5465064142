-- ===== src/Scanner/MetricCache/Freshness.antt =====
-- When the cache of a state is used.
use stock_scanner.Prelude.{
  ℕ, ◌+◌, ◌<◌, ◌≤◌, ◌≡◌, ◌↔◌, refl, String, Bool, true, false, ◌||◌, ◌&&◌, All, inl, inr,
  Bool-cases, Option, none, some, [], ◌∷◌, ltb, if◌then◌else◌, is_empty, arith, eq_iff,
}
use stock_scanner.Float.{Float}
use stock_scanner.Int64.{is_nonpos}
use stock_scanner.Dict.{Dict, lookup, get_or, has}
use stock_scanner.Models.Market.{Tick, Bar1m}
use stock_scanner.Scanner.Session.{MarketSession, premarket, market, postmarket, closed}
use stock_scanner.Scanner.State.{SymbolState, apply_tick, apply_bar, apply_indicators}
use stock_scanner.Scanner.MetricCache.{
  misses, only_requested, get_cached_metrics, set_cached_metrics,
}

abbrev pub is_some : {A : Type 0} → Option A → Bool
is_some none = false
is_some (some a) = true

in_time : (until now : ℕ) → (ltb until now ≡ false) ↔ (now ≤ until)
in_time until now = ((λ h. ground arith), (λ h. ground arith))

module _ {F : Type 0} where
  cached_answer :
      (st : SymbolState F) (t now now' age : ℕ) (metrics : Dict F) (required : Dict Bool)
      → 0 < t
      → t ≤ now
      → now ≤ now'
      → is_nonpos age ≡ false
      → get_cached_metrics (set_cached_metrics st t metrics age) now now' (some required) age ≡ (
          if is_empty metrics || misses metrics required || ltb (t + age) now'
          then none
          else some (only_requested (some required) metrics))
  unfolding get_cached_metrics set_cached_metrics
  cached_answer st t now now' age metrics required p q r a = ground arith

  -- Of what is given, exactly the required metrics are there, with their values.
  pub lookup-only_requested :
      (required : Dict Bool) (metrics : Dict F) (k : String)
      → lookup k (only_requested (some required) metrics)
        ≡ (if get_or false k required then lookup k metrics else none)
  unfolding only_requested lookup
  lookup-only_requested required [] k = ground arith
  lookup-only_requested required ((j, v) ∷ m) k =
      ground (arith, eq_iff j k, lookup-only_requested required m k)

  abbrev pub lookup_in : String → Option (Dict F) → Option F
  lookup_in k none = none
  lookup_in k (some m) = lookup k m

  misses-All :
      (metrics : Dict F) (required : Dict Bool)
      → (misses metrics required ≡ false) ↔ All (λ e. has e.0 metrics ≡ true) required
  misses-All metrics [] = ((λ h. tt), (λ h. refl))
  misses-All metrics ((k, b) ∷ rest) = elim (Bool-cases (has k metrics)) [
    | inl e ↦
        rw (e)
          ((λ h. (refl, (misses-All metrics rest).0 h)), (λ h. (misses-All metrics rest).1 h.1))
    | inr e ↦ rw (e) ((λ h. cc), (λ h. cc))
  ]

  gate :
      (e m l : Bool) (d : Dict F)
      → (is_some (if e || m || l then none else some d) ≡ true)
        ↔ ((e ≡ false) × (l ≡ false) × (m ≡ false))
  gate true m l d = ((λ h. cc), (λ h. cc))
  gate false true l d = ((λ h. cc), (λ h. cc))
  gate false false true d = ((λ h. cc), (λ h. cc))
  gate false false false d = ((λ h. (refl, refl, refl)), (λ h. refl))

  lookup_gate :
      (b : Bool) (required : Dict Bool) (metrics : Dict F) (k : String)
      → lookup_in k (if b then none else some (only_requested (some required) metrics)) ≡ (
          if is_some (if b then none else some (only_requested (some required) metrics))
            && get_or false k required
          then lookup k metrics
          else none)
  lookup_gate true required metrics k = refl
  lookup_gate false required metrics k = lookup-only_requested required metrics k

  answer_lem :
      (metrics : Dict F) (required : Dict Bool) (until now : ℕ)
      → (is_some (
            if is_empty metrics || misses metrics required || ltb until now
            then none
            else some (only_requested (some required) metrics))
          ≡ true)
        ↔ ((is_empty metrics ≡ false) × (now ≤ until) × All (λ e. has e.0 metrics ≡ true) required)
  answer_lem metrics required until now =
      let opened =
        gate (is_empty metrics) (misses metrics required) (ltb until now)
          (only_requested (some required) metrics) in
      let all = misses-All metrics required in
      let time = in_time until now in
      (
        (λ h. let g = opened.0 h in (g.0, time.0 g.1, all.0 g.2)),
        (λ h. opened.1 (h.0, time.1 h.1, all.1 h.2)),
      )

  -- What the cache gives for required metrics after metrics were stored at a time that is not zero,
  -- at readings of the clock from then on and for a positive maximum age. It answers exactly when
  -- those stored are not empty, every required name is among them, and the maximum age has not
  -- passed. The answer has the stored value under each name that the requirement maps to true,
  -- and nothing under any other.
  pub get_cached_metrics-set_cached_metrics :
      (st : SymbolState F) (t now now' age : ℕ) (metrics : Dict F) (required : Dict Bool)
      (k : String)
      → 0 < t
      → t ≤ now
      → now ≤ now'
      → is_nonpos age ≡ false
      → let got =
          get_cached_metrics (set_cached_metrics st t metrics age) now now' (some required) age in
        ((is_some got ≡ true) ↔ (
          (is_empty metrics ≡ false)
          × (now' ≤ t + age)
          × All (λ e. has e.0 metrics ≡ true) required))
        × (lookup_in k got
            ≡ (if is_some got && get_or false k required then lookup k metrics else none))
  get_cached_metrics-set_cached_metrics st t now now' age metrics required k p q r a =
      rw (cached_answer st t now now' age metrics required p q r a) (
        answer_lem metrics required (t + age) now',
        lookup_gate (is_empty metrics || misses metrics required || ltb (t + age) now') required
            metrics k,
      )

module _ {F : Type 0} ⦃fl : Float F⦄ where
  ticked :
      (st : SymbolState F) (now t t' age : ℕ) (session : MarketSession) (s : String) (x : Tick F)
      (required : Option (Dict Bool))
      → get_cached_metrics (apply_tick now session s x st) t t' required age ≡ none
  unfolding get_cached_metrics apply_tick
  ticked st now t t' age premarket s x required = refl
  ticked st now t t' age market s x required = refl
  ticked st now t t' age postmarket s x required = refl
  ticked st now t t' age closed s x required = refl

  -- A tick and a finalized bar empty the cache. Indicator values do not: the metrics that were
  -- computed from the old ones are still given.
  pub get_cached_metrics_updates :
      (st : SymbolState F) (now t t' age max : ℕ) (session : MarketSession) (s : String)
      (x : Tick F) (b : Bar1m F) (values : Dict F) (required : Option (Dict Bool))
      → (get_cached_metrics (apply_tick now session s x st) t t' required age ≡ none)
        × (get_cached_metrics (apply_bar max now session b st) t t' required age ≡ none)
        × (get_cached_metrics (apply_indicators now values st) t t' required age
            ≡ get_cached_metrics st t t' required age)
  unfolding get_cached_metrics apply_bar apply_indicators
  get_cached_metrics_updates st now t t' age max session s x b values required =
      (ticked st now t t' age session s x required, refl, refl)
