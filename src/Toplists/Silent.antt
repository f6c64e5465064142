-- ===== src/Toplists/Silent.antt =====
-- internal/toplist/metric_mapper.go against internal/metrics/registry.go: toplists whose metric no computer
-- gives.
use stock_scanner.Prelude.{
  ℕ, String, ◌≡◌, refl, ◌∙◌, Option, none, List, [], ◌∷◌, subst, sym, inl, inr, Any, All,
}
use stock_scanner.Float.{Float}
use stock_scanner.Dict.{Dict, lookup, IsMap}
use stock_scanner.Scanner.Snapshot.{SymbolStateSnapshot}
use stock_scanner.Metrics.Registry.{compute_all}
use stock_scanner.Metrics.Registry.BuiltIn.{built_in_metrics, new_registry}
use stock_scanner.Metrics.Registry.Laws.{find, compute_all_lem}
use stock_scanner.Metrics.Registry.Standard.{new_registry-IsRegistry, new_registry-find}
use stock_scanner.Toplists.{get_metric_name, get_metric_value, get_vwap_distance}

-- Metrics and windows that Validate lets through
abbrev pub silent_pairs : List (String × String)
silent_pairs =
    ("change_pct", "1h")
    ∷ ("change_pct", "1d")
    ∷ ("volume", "1h")
    ∷ ("volume", "1d")
    ∷ ("relative_volume", "1m")
    ∷ ("relative_volume", "1h")
    ∷ ("relative_volume", "1d")
    ∷ ("vwap_dist", "1m")
    ∷ ("vwap_dist", "1d")
    ∷ []

abbrev pub IsSilent : String → String → Type 0
IsSilent metric window = Any (λ p. (metric ≡ p.0) × (window ≡ p.1)) silent_pairs

-- No built-in computer has the name that such a toplist looks up.
silent_pairs-find :
    (F : Type 0) ⦃fl : Float F⦄ (eastern : Option (ℕ → ℕ))
    → All
        (λ p. find {F = F} (get_metric_name p.0 p.1) (built_in_metrics eastern) ≡ none)
        silent_pairs
unfolding built_in_metrics get_metric_name
silent_pairs-find F eastern =
    (refl, (refl, (refl, (refl, (refl, (refl, (refl, (refl, (refl, tt)))))))))

-- What holds of each pair of a list holds of the one that is given.
at_pair :
    (P : String → String → Type 0) (ps : List (String × String)) (metric window : String)
    → All (λ p. P p.0 p.1) ps
    → Any (λ p. (metric ≡ p.0) × (window ≡ p.1)) ps
    → P metric window
at_pair P [] metric window h i = absurd i
at_pair P (p ∷ ps) metric window h (inl e) =
    subst (λ x. P x window) (sym e.0) (subst (λ y. P p.0 y) (sym e.1) h.0)
at_pair P (p ∷ ps) metric window h (inr i) = at_pair P ps metric window h.1 i

module _ {F : Type 0} ⦃fl : Float F⦄ where
  -- A value is found only under the name.
  abbrev OnlyNamed : Dict F → String → String → Type 0
  OnlyNamed m metric window =
      lookup (get_metric_name metric window) m ≡ none → get_metric_value metric window m ≡ none

  silent_pairs-OnlyNamed : (m : Dict F) → All (λ p. OnlyNamed m p.0 p.1) silent_pairs
  unfolding get_metric_name get_metric_value get_vwap_distance
  silent_pairs-OnlyNamed m = (
    λ h. rw (get_metric_value, h) refl,
    (
      λ h. rw (get_metric_value, h) refl,
      (
        λ h. rw (get_metric_value, h) refl,
        (
          λ h. rw (get_metric_value, h) refl,
          (
            λ h. refl,
            (λ h. rw (get_metric_value, h) refl, (λ h. refl, (λ h. refl, (λ h. refl, tt)))),
          ),
        ),
      ),
    ),
  )

  unserved :
      (eastern : Option (ℕ → ℕ)) (now : ℕ) (s : SymbolStateSnapshot F) (k : String)
      → IsMap s.indicators
      → find {F = F} k (built_in_metrics eastern) ≡ none
      → lookup k (compute_all (new_registry eastern) now s) ≡ lookup k s.indicators
  unserved eastern now s k h f =
      compute_all_lem (new_registry eastern) now s k (new_registry-IsRegistry eastern).0 h
      ∙ rw (new_registry-find eastern k, f) refl

  -- Toplists of the change or the volume over 1h or 1d, of the relative volume over 1m, 1h or 1d, and
  -- of the VWAP distance over 1m or 1d get no value from all metrics of the standard registry,
  -- unless an indicator has the very name that is looked up.
  pub silent_toplists :
      (eastern : Option (ℕ → ℕ)) (now : ℕ) (s : SymbolStateSnapshot F) (metric window : String)
      → IsSilent metric window
      → IsMap s.indicators
      → lookup (get_metric_name metric window) s.indicators ≡ none
      → get_metric_value metric window (compute_all (new_registry eastern) now s) ≡ none
  silent_toplists eastern now s metric window i h n =
      let metrics = compute_all (new_registry eastern) now s in
      let missing =
        at_pair (λ x y. find {F = F} (get_metric_name x y) (built_in_metrics eastern) ≡ none)
          silent_pairs metric window (silent_pairs-find F eastern) i in
      at_pair (OnlyNamed metrics) silent_pairs metric window (silent_pairs-OnlyNamed metrics) i
        (unserved eastern now s (get_metric_name metric window) h missing ∙ n)
