-- ===== src/Rules/Filters/Threshold.antt =====
-- The volume threshold is monotone, and the validated session filters are exact.
use stock_scanner.Prelude.{
  ℕ, ◌<◌, Option-cases, false≢true, String, ◌≡◌, refl, sym, subst, true, false, ◌||◌, some, List,
  [], ◌∷◌, arith, str_eq, eq_iff, inl, inr, ◌⊎◌,
}
use stock_scanner.Float.{Float}
use stock_scanner.Int64.{is_nonpos, slt, word}
use stock_scanner.Dict.{Dict, lookup}
use stock_scanner.Rules.Filters.{
  meets, meets_timeframe, timeframe_volumes, check_volume_threshold, check_session_filter,
  valid_session,
}

slt_antitone : (v t t' : ℕ) → slt v t ≡ false → slt t t' ≡ false → slt v t' ≡ false
slt_antitone v t t' h k = ground arith

nonpos_below :
    (t t' : ℕ) → t < word → t' < word → is_nonpos t ≡ true → slt t t' ≡ false → is_nonpos t' ≡ true
nonpos_below t t' b b' h k = ground arith

module _ {F : Type 0} ⦃fl : Float F⦄ (m : Dict F) (t t' : ℕ) (lower : slt t t' ≡ false) where
  meets_antitone :
      (name : String) (estimate : F → F)
      → meets m t name estimate ≡ true
      → meets m t' name estimate ≡ true
  unfolding meets
  meets_antitone name estimate h = elim (Option-cases (lookup name m)) [
    | inl e ↦ absurd (false≢true (rw (e, meets) at h))
    | inr (v, e) ↦
        let passed = rw (e, meets) at h in
        rw (e, meets) (ground (arith, passed, slt_antitone (fl.to_int (estimate v)) t t'))
  ]

  meets_timeframe_antitone :
      (l : List (String × F)) → meets_timeframe m t l ≡ true → meets_timeframe m t' l ≡ true
  unfolding meets_timeframe
  meets_timeframe_antitone [] h = h
  meets_timeframe_antitone ((name, k) ∷ rest) h =
      ground (arith, meets_antitone name (λ v. fl.mul v k), meets_timeframe_antitone rest)

-- A rule that passes its volume threshold passes every threshold that is no higher (as signed
-- 64-bit values): the tests are one after another, and each is against the same threshold.
pub check_volume_threshold_antitone :
    {F : Type 0} ⦃fl : Float F⦄ (m : Dict F) (t t' : ℕ)
    → t < word
    → t' < word
    → slt t t' ≡ false
    → check_volume_threshold m (some t) ≡ true
    → check_volume_threshold m (some t') ≡ true
unfolding check_volume_threshold
check_volume_threshold_antitone ⦃fl⦄ m t t' b b' lower h = ground (
  arith,
  nonpos_below t t' b b',
  meets_antitone m t t' lower "volume_daily" (λ v. v),
  meets_antitone m t t' lower "premarket_volume" (λ v. v),
  meets_antitone m t t' lower "postmarket_volume" (λ v. v),
  meets_timeframe_antitone m t t' lower timeframe_volumes,
  meets_antitone m t t' lower "volume_live" (λ v. fl.mul v (fl.decimal 390 0)),
)

str_eq_comm : (a b : String) → str_eq a b ≡ str_eq b a
str_eq_comm a b = ground (arith, eq_iff a b, eq_iff b a)

abbrev SessionExact : String → String → Type 0
SessionExact current during =
    check_session_filter current during ≡ (str_eq during "all" || str_eq during current)

valid_session_cases :
    (s : String)
    → valid_session s ≡ true
    → (s ≡ "premarket") ⊎ (s ≡ "market") ⊎ (s ≡ "postmarket") ⊎ (s ≡ "all")
unfolding valid_session
valid_session_cases s h =
    ground (arith, eq_iff s "premarket", eq_iff s "market", eq_iff s "postmarket", eq_iff s "all")

-- For a session filter that validation lets through, the check passes exactly when the filter is
-- "all" or names the current session.
pub check_session_filter_exact :
    (current during : String)
    → valid_session during ≡ true
    → check_session_filter current during ≡ (str_eq during "all" || str_eq during current)
unfolding check_session_filter
check_session_filter_exact current during h = elim (valid_session_cases during h) [
  | inl e ↦ subst (SessionExact current) (sym e) (str_eq_comm current "premarket")
  | inr (inl e) ↦ subst (SessionExact current) (sym e) (str_eq_comm current "market")
  | inr (inr (inl e)) ↦ subst (SessionExact current) (sym e) (str_eq_comm current "postmarket")
  | inr (inr (inr e)) ↦ subst (SessionExact current) (sym e) refl
]
