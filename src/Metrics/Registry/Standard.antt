-- ===== src/Metrics/Registry/Standard.antt =====
-- internal/metrics/registry.go: none of the built-in computers is refused, so that every one is in
-- the registry that NewRegistry gives.
use stock_scanner.Prelude.{
  none, ℕ, String, ◌≡◌, refl, ◌∙◌, sym, Bool, true, false, not, ◌&&◌, Option, some, List, [], ◌∷◌,
  str_eq, All, &&-eq-true,
}
use stock_scanner.Float.{Float}
use stock_scanner.Dict.{lookup, IsMap}
use stock_scanner.Dict.Laws.{lookup-empty}
use stock_scanner.Scanner.Snapshot.{SymbolStateSnapshot}
use stock_scanner.Metrics.{MetricComputer}
use stock_scanner.Metrics.Registry.{Registry, empty_registry, compute_all}
use stock_scanner.Metrics.Registry.BuiltIn.{built_in_metrics, new_registry}
use stock_scanner.Metrics.Registry.Laws.{
  IsAbsent, IsDistinct, find, IsRegistry, or_indicator, compute_all_lem,
}
use stock_scanner.Metrics.Registry.Registering.{
  IsFree, register_all-holds, register_all_lem, empty-IsRegistry, or_old,
}

-- A Boolean test of distinct names that are not empty
abbrev absent : String → List String → Bool
absent k [] = true
absent k (n ∷ ns) = not (str_eq n k) && absent k ns

abbrev distinct : List String → Bool
distinct [] = true
distinct (n ∷ ns) = not (str_eq n "") && (absent n ns && distinct ns)

not-eq-true : (b : Bool) → not b ≡ true → b ≡ false
not-eq-true true h = sym h
not-eq-true false h = refl

module _ {F : Type 0} where
  names : List (MetricComputer F) → List String
  names [] = []
  names (c ∷ cs) = c.name ∷ names cs

  absent-IsAbsent :
      (k : String) (cs : List (MetricComputer F)) → absent k (names cs) ≡ true → IsAbsent k cs
  unfolding names
  absent-IsAbsent k [] h = tt
  absent-IsAbsent k (c ∷ cs) h =
      let both = &&-eq-true (not (str_eq c.name k)) _ h in
      (not-eq-true (str_eq c.name k) both.0, absent-IsAbsent k cs both.1)

  distinct-IsDistinct :
      (cs : List (MetricComputer F))
      → distinct (names cs) ≡ true
      → IsDistinct cs × All (IsFree empty_registry) cs
  unfolding names
  distinct-IsDistinct [] h = (tt, tt)
  distinct-IsDistinct (c ∷ cs) h =
      let both = &&-eq-true (not (str_eq c.name "")) _ h in
      let later = &&-eq-true (absent c.name (names cs)) _ both.1 in
      let rest = distinct-IsDistinct cs later.1 in
      (
        (absent-IsAbsent c.name cs later.0, rest.0),
        ((not-eq-true (str_eq c.name "") both.0, lookup-empty c.name), rest.1),
      )

built_in_metrics-distinct :
    (F : Type 0) ⦃fl : Float F⦄ (eastern : Option (ℕ → ℕ))
    → distinct (names {F = F} (built_in_metrics eastern)) ≡ true
unfolding built_in_metrics names
built_in_metrics-distinct F eastern = refl

module _ {F : Type 0} ⦃fl : Float F⦄ where
  pub new_registry-IsRegistry :
      (eastern : Option (ℕ → ℕ))
      → IsRegistry {F = F} (new_registry eastern)
        × All
            (λ c. lookup c.name (new_registry {F = F} eastern).computers ≡ some c)
            (built_in_metrics eastern)
  unfolding new_registry
  new_registry-IsRegistry eastern =
      let checked =
        distinct-IsDistinct {F = F} (built_in_metrics eastern)
          (built_in_metrics-distinct F eastern) in
      register_all-holds (built_in_metrics eastern) checked.0 checked.1

  -- A name is in the registry if it is in the list.
  pub new_registry-find :
      (eastern : Option (ℕ → ℕ)) (k : String)
      → lookup k (new_registry {F = F} eastern).computers
        ≡ or_old (find k (built_in_metrics eastern)) none
  unfolding new_registry lookup
  new_registry-find eastern k =
      let checked =
        distinct-IsDistinct {F = F} (built_in_metrics eastern)
          (built_in_metrics-distinct F eastern) in
      (register_all_lem empty_registry (built_in_metrics eastern) empty-IsRegistry checked.0
          checked.1).1
        k

  computes-each :
      (r : Registry F) (now : ℕ) (s : SymbolStateSnapshot F) (cs : List (MetricComputer F))
      → IsRegistry r
      → IsMap s.indicators
      → All (λ c. lookup c.name r.computers ≡ some c) cs
      → All
          (λ c.
            lookup c.name (compute_all r now s)
            ≡ or_indicator (c.compute now s) (lookup c.name s.indicators))
          cs
  computes-each r now s [] v h f = tt
  computes-each r now s (c ∷ cs) v h f =
      (compute_all_lem r now s c.name v h ∙ rw f.0 refl, computes-each r now s cs v h f.1)

  same-each :
      (r q : Registry F) (cs : List (MetricComputer F))
      → ((k : String) → lookup k r.computers ≡ lookup k q.computers)
      → All (λ c. lookup c.name q.computers ≡ some c) cs
      → All (λ c. lookup c.name r.computers ≡ some c) cs
  same-each r q [] same h = tt
  same-each r q (c ∷ cs) same h = (same c.name ∙ h.0, same-each r q cs same h.1)

  -- In any registry with the entries of NewRegistry's, in whatever order its computers stand, and
  -- on any snapshot that has each indicator once, ComputeAll gives, under the name of each of the
  -- built-in computers, that computer's value; where it computes none, it gives the indicator of
  -- that name, if there is one.
  pub compute_all-new_registry :
      (eastern : Option (ℕ → ℕ)) (r : Registry F) (now : ℕ) (s : SymbolStateSnapshot F)
      → IsRegistry r
      → ((k : String) → lookup k r.computers ≡ lookup k (new_registry {F = F} eastern).computers)
      → IsMap s.indicators
      → All
          (λ c.
            lookup c.name (compute_all r now s)
            ≡ or_indicator (c.compute now s) (lookup c.name s.indicators))
          (built_in_metrics eastern)
  compute_all-new_registry eastern r now s v same h =
      let standard = new_registry-IsRegistry eastern in
      computes-each r now s (built_in_metrics eastern) v h
        (same-each r (new_registry eastern) (built_in_metrics eastern) same standard.1)
