-- ===== src/Scanner/ScanLoop/Filters.antt =====
-- The pre-filters of a rule are the filters of all its conditions.
use stock_scanner.Prelude.{
  ℕ, ◌≡◌, refl, ap, not, ◌&&◌, str_eq, String, true, false, Option, none, some, List, [], ◌∷◌, ◌↔◌,
  All, ok, arith,
}
use stock_scanner.Float.{Float}
use stock_scanner.Dict.{Dict}
use stock_scanner.Models.Rule.{Condition, Rule}
use stock_scanner.Rules.Filters.{check_volume_threshold, check_session_filter}
use stock_scanner.Rules.Store.{RuleStore, get_rule}
use stock_scanner.Rules.Store.Stripped.{IsStripped, get_rule-All}
use stock_scanner.Scanner.ScanLoop.{
  positive_option, filters_pass, all_filters_pass, should_evaluate_rule,
}

module _ {F : Type 0} ⦃fl : Float F⦄ (m : Dict F) (session : String) where
  abbrev pub Passes : Condition F → Type 0
  Passes c =
      (check_volume_threshold m c.volume_threshold ≡ true)
      × (check_session_filter session c.calculated_during ≡ true)

  no_threshold : (t : Option ℕ) → positive_option t ≡ false → check_volume_threshold m t ≡ true
  unfolding check_volume_threshold
  no_threshold none e = refl
  no_threshold (some t) e = ground arith

  no_session :
      (during : String)
      → (not (str_eq during "") && not (str_eq during "all")) ≡ false
      → check_session_filter session during ≡ true
  unfolding check_session_filter
  no_session during e = ground arith

  filters_pass-Passes : (c : Condition F) → filters_pass m session c ≡ true → Passes c
  unfolding filters_pass
  filters_pass-Passes c h =
      ground (arith, no_threshold c.volume_threshold, no_session c.calculated_during)

  Passes-filters_pass : (c : Condition F) → Passes c → filters_pass m session c ≡ true
  unfolding filters_pass
  Passes-filters_pass c h = ground arith

  all_filters_pass-All :
      (cs : List (Condition F)) → all_filters_pass m session cs ≡ true → All Passes cs
  unfolding all_filters_pass
  all_filters_pass-All [] h = tt
  all_filters_pass-All (c ∷ cs) h = ground (arith, filters_pass-Passes c, all_filters_pass-All cs)

  All-all_filters_pass :
      (cs : List (Condition F)) → All Passes cs → all_filters_pass m session cs ≡ true
  unfolding all_filters_pass
  All-all_filters_pass [] h = refl
  All-all_filters_pass (c ∷ cs) h = ground (arith, Passes-filters_pass c, All-all_filters_pass cs)

  -- A rule passes the pre-filters exactly when each of its conditions passes its volume threshold
  -- and its session filter.
  pub should_evaluate_rule-All :
      (r : Rule F) → (should_evaluate_rule r m session ≡ true) ↔ All Passes r.conditions
  unfolding should_evaluate_rule
  should_evaluate_rule-All r =
      (all_filters_pass-All r.conditions, All-all_filters_pass r.conditions)

  stripped-Passes : (c : Condition F) → IsStripped c → Passes c
  stripped-Passes c (v, d, t, k) = (
    no_threshold c.volume_threshold (ap positive_option v),
    no_session c.calculated_during (ap (λ x. not (str_eq x "") && not (str_eq x "all")) d),
  )

  stripped_pass : (cs : List (Condition F)) → All IsStripped cs → All Passes cs
  stripped_pass [] h = tt
  stripped_pass (c ∷ cs) h = (stripped-Passes c h.0, stripped_pass cs h.1)

  -- A rule that the in-memory store gives passes the pre-filters, whatever the metrics and the
  -- session are and whatever filters the rule was stored with.
  pub should_evaluate_rule-get_rule :
      (s : RuleStore F) (id : String) (r : Rule F)
      → get_rule s id ≡ ok r
      → should_evaluate_rule r m session ≡ true
  should_evaluate_rule-get_rule s id r h =
      (should_evaluate_rule-All r).1 (stripped_pass r.conditions (get_rule-All s id r h))
