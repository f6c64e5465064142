-- ===== src/Metrics/Registry/Laws.antt =====
-- internal/metrics/registry.go: a metric that is computed is the value of its computer, or else the
-- indicator of that name.
use stock_scanner.Prelude.{
  ℕ, String, ◌≡◌, refl, subst, ◌∙◌, sym, Bool, false, inl, inr, Option, none, some, List, [], ◌∷◌,
  arith, str_eq, eq_iff, eq_refl, if◌then◌else◌, All, is_empty, Bool-cases,
}
use stock_scanner.Dict.{Dict, lookup, insert, values, Fresh, IsMap}
use stock_scanner.Dict.Laws.{lookup-insert, lookup-empty, lookup-Fresh}
use stock_scanner.Scanner.Snapshot.{SymbolStateSnapshot}
use stock_scanner.Metrics.{MetricComputer}
use stock_scanner.Metrics.Registry.{
  Registry, copy_indicators, store_value, run_computers, any_name, compute_all, named,
  compute_metrics,
}

module _ {F : Type 0} where
  -- No computer of the list has the name.
  abbrev pub IsAbsent : String → List (MetricComputer F) → Type 0
  IsAbsent k cs = All (λ c. str_eq c.name k ≡ false) cs

  abbrev pub IsDistinct : List (MetricComputer F) → Type 0
  IsDistinct [] = Unit {0}
  IsDistinct (c ∷ cs) = IsAbsent c.name cs × IsDistinct cs

  abbrev pub find : String → List (MetricComputer F) → Option (MetricComputer F)
  find k [] = none
  find k (c ∷ cs) = if str_eq c.name k then some c else find k cs

  -- A computer's value where it has one, else what stands there
  abbrev pub or_indicator : Option F → Option F → Option F
  or_indicator (some v) old = some v
  or_indicator none old = old

  abbrev pub value_of : Option (MetricComputer F) → ℕ → SymbolStateSnapshot F → Option F → Option F
  value_of none now s old = old
  value_of (some c) now s old = or_indicator (c.compute now s) old

  abbrev when : Bool → Option F → Option F → Option F
  when b x y = if b then x else y

  pub find-IsAbsent : (k : String) (cs : List (MetricComputer F)) → IsAbsent k cs → find k cs ≡ none
  find-IsAbsent k [] h = refl
  find-IsAbsent k (c ∷ cs) h = ground (arith, find-IsAbsent k cs)

  lookup-store_value :
      (k name : String) (o : Option F) (m : Dict F)
      → lookup k (store_value name o m)
        ≡ (if str_eq name k then or_indicator o (lookup k m) else lookup k m)
  unfolding store_value
  lookup-store_value k name none m = ground arith
  lookup-store_value k name (some v) m = lookup-insert name k v m

  lookup-run_step :
      (wanted : String → Bool) (now : ℕ) (s : SymbolStateSnapshot F) (k : String)
      (c : MetricComputer F) (m : Dict F)
      → lookup k (if wanted c.name then store_value c.name (c.compute now s) m else m) ≡ (
          if wanted c.name
          then (if str_eq c.name k then or_indicator (c.compute now s) (lookup k m) else lookup k m)
          else lookup k m)
  lookup-run_step wanted now s k c m = elim (Bool-cases (wanted c.name)) [
    | inl e ↦ rw e (lookup-store_value k c.name (c.compute now s) m)
    | inr e ↦ rw e refl
  ]

  lookup-run_computers :
      (wanted : String → Bool) (now : ℕ) (s : SymbolStateSnapshot F) (k : String)
      (cs : List (MetricComputer F)) (m : Dict F)
      → IsDistinct cs
      → lookup k (run_computers wanted now s cs m)
        ≡ (if wanted k then value_of (find k cs) now s (lookup k m) else lookup k m)
  unfolding run_computers
  lookup-run_computers wanted now s k [] m h = ground arith
  lookup-run_computers wanted now s k (c ∷ cs) m h =
      lookup-run_computers wanted now s k cs _ h.1
      ∙ rw (lookup-run_step wanted now s k c m) (elim (Bool-cases (str_eq c.name k)) [
        | inl e ↦
            let same : c.name ≡ k = (eq_iff c.name k).0 e in
            let none_later = find-IsAbsent k cs (subst (λ x. IsAbsent x cs) same h.0) in
            rw (e, none_later, same) (ground arith)
        | inr e ↦ rw e (ground arith)
      ])

  lookup-copy_indicators :
      (wanted : String → Bool) (k : String) (m inds : Dict F)
      → IsMap inds
      → lookup k (copy_indicators wanted m inds)
        ≡ (if wanted k then or_indicator (lookup k inds) (lookup k m) else lookup k m)
  unfolding copy_indicators lookup
  lookup-copy_indicators wanted k m [] h = ground arith
  lookup-copy_indicators wanted k m ((j, v) ∷ rest) h =
      lookup-copy_indicators wanted k (if wanted j then insert j v m else m) rest h.1
      ∙ elim (Bool-cases (str_eq j k)) [
        | inl e ↦
            let same : j ≡ k = (eq_iff j k).0 e in
            let later = lookup-Fresh k rest (subst (λ x. Fresh x rest) same h.0) in
            rw (e, later, same)
              (elim (Bool-cases (wanted k)) [
                | inl w ↦ rw w (ground (arith, lookup-insert k k v m, eq_refl k))
                | inr w ↦ rw w (ground arith)
              ])
        | inr e ↦ elim (Bool-cases (wanted j)) [
          | inl w ↦ rw (e, w, lookup-insert j k v m) (rw e (ground arith))
          | inr w ↦ rw (e, w) (ground arith)
        ]
      ]

  -- Each computer stands once in the map, under its own name, and the list is the map's values.
  pub record IsRegistry (r : Registry F) : Type 0 where
    pub is_map : IsMap r.computers
    pub named_by : All (λ e. e.1.name ≡ e.0) r.computers
    pub in_order : r.ordered ≡ values r.computers

  find-values :
      (k : String) (m : Dict (MetricComputer F))
      → All (λ e. e.1.name ≡ e.0) m
      → find k (values m) ≡ lookup k m
  unfolding lookup
  find-values k [] h = refl
  find-values k ((j, c) ∷ m) h = rw h.0 (ground (arith, find-values k m h.1))

  values-IsAbsent :
      (k : String) (m : Dict (MetricComputer F))
      → All (λ e. e.1.name ≡ e.0) m
      → Fresh k m
      → IsAbsent k (values m)
  values-IsAbsent k [] h f = tt
  values-IsAbsent k ((j, c) ∷ m) h f = (rw h.0 f.0, values-IsAbsent k m h.1 f.1)

  values-IsDistinct :
      (m : Dict (MetricComputer F)) → All (λ e. e.1.name ≡ e.0) m → IsMap m → IsDistinct (values m)
  values-IsDistinct [] h d = tt
  values-IsDistinct ((j, c) ∷ m) h d =
      (rw h.0 (values-IsAbsent j m h.1 d.0), values-IsDistinct m h.1 d.1)

  or_indicator-none : (o : Option F) → or_indicator o none ≡ o
  or_indicator-none none = refl
  or_indicator-none (some v) = refl

  -- Either computation is a pass over the wanted names.
  lookup-pass :
      (wanted : String → Bool) (r : Registry F) (now : ℕ) (s : SymbolStateSnapshot F) (k : String)
      → IsRegistry r
      → IsMap s.indicators
      → lookup k (run_computers wanted now s r.ordered (copy_indicators wanted [] s.indicators))
        ≡ (if wanted k then value_of (lookup k r.computers) now s (lookup k s.indicators) else none)
  lookup-pass wanted r now s k v h =
      let distinct : IsDistinct r.ordered =
        subst (λ x. IsDistinct x) (sym v.in_order) (values-IsDistinct _ v.named_by v.is_map) in
      let found : find k r.ordered ≡ lookup k r.computers =
        rw v.in_order (find-values k _ v.named_by) in
      lookup-run_computers wanted now s k r.ordered _ distinct
      ∙ rw
          (
            found,
            lookup-copy_indicators wanted k [] s.indicators h,
            lookup-empty {V = F} k,
            or_indicator-none (lookup k s.indicators),
          )
          (ground arith)

  -- The computed metrics: every computer's value, and the indicators that no computer replaces.
  pub compute_all_lem :
      (r : Registry F) (now : ℕ) (s : SymbolStateSnapshot F) (k : String)
      → IsRegistry r
      → IsMap s.indicators
      → lookup k (compute_all r now s)
        ≡ value_of (lookup k r.computers) now s (lookup k s.indicators)
  unfolding compute_all
  compute_all_lem r now s k v h = lookup-pass any_name r now s k v h

  -- In a registry whose computers stand under their own names, and on a snapshot that has each
  -- indicator once, ComputeMetrics for some names gives under each of these what ComputeAll gives
  -- and nothing under any other; for no names it gives what ComputeAll gives.
  pub compute_metrics_lem :
      (r : Registry F) (now : ℕ) (s : SymbolStateSnapshot F) (names : Dict Bool) (k : String)
      → IsRegistry r
      → IsMap s.indicators
      → lookup k (compute_metrics r now s names) ≡ (
          if is_empty names
          then lookup k (compute_all r now s)
          else if named names k
          then lookup k (compute_all r now s)
          else none)
  unfolding compute_metrics
  compute_metrics_lem r now s names k v h = elim (Bool-cases (is_empty names)) [
    | inl e ↦ rw e refl
    | inr e ↦ rw (e, compute_all_lem r now s k v h) (lookup-pass (named names) r now s k v h)
  ]
