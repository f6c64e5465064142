-- ===== src/Metrics/Registry/Registering.antt =====
-- internal/metrics/registry.go: registration keeps each computer once, under its own name.
use stock_scanner.Prelude.{
  String, ◌≡◌, ◌≢◌, refl, subst, ◌∙◌, sym, true, false, false≢true, ◌⊎◌, inl, inr, Option, none,
  some, List, [], ◌∷◌, arith, str_eq, eq_iff, eq_refl, if◌then◌else◌, Result, ok, err, All,
  Bool-cases,
}
use stock_scanner.Dict.{Dict, lookup, insert, has}
use stock_scanner.Dict.Laws.{lookup-insert, insert-IsMap}
use stock_scanner.Metrics.{MetricComputer}
use stock_scanner.Metrics.Registry.Laws.{IsAbsent, IsDistinct, find, find-IsAbsent, IsRegistry}
use stock_scanner.Metrics.Registry.{
  Registry, RegistryError, empty_registry, rebuild_ordered, register, register_all, nil_computer,
}

module _ {F : Type 0} where
  insert-named_by :
      (c : MetricComputer F) (m : Dict (MetricComputer F))
      → All (λ e. e.1.name ≡ e.0) m
      → All (λ e. e.1.name ≡ e.0) (insert c.name c m)
  unfolding insert
  insert-named_by c [] h = (refl, tt)
  insert-named_by c ((j, d) ∷ m) h = elim (Bool-cases (str_eq j c.name)) [
    | inl e ↦ rw e (refl, h.1)
    | inr e ↦ rw e (h.0, insert-named_by c m h.1)
  ]

  insert-IsRegistry :
      (r : Registry F) (c : MetricComputer F)
      → IsRegistry r
      → IsRegistry (rebuild_ordered (record r { computers = insert c.name c r.computers }))
  unfolding rebuild_ordered
  insert-IsRegistry r c v = record {
    is_map = insert-IsMap c.name c r.computers v.is_map;
    named_by = insert-named_by c r.computers v.named_by;
    in_order = refl;
  }

  -- What a registration does
  abbrev pub RegisterEffect :
      Registry F → Option (MetricComputer F) → Result RegistryError (Registry F) → Type 0
  RegisterEffect r none res = res ≡ err nil_computer
  RegisterEffect r (some c) (err e) = (c.name ≡ "") ⊎ (has c.name r.computers ≡ true)
  RegisterEffect r (some c) (ok r') =
      (c.name ≢ "")
      × (has c.name r.computers ≡ false)
      × IsRegistry r'
      × ((k : String)
          → lookup k r'.computers ≡ (if str_eq c.name k then some c else lookup k r.computers))

  pub register_effect :
      (r : Registry F) (o : Option (MetricComputer F))
      → IsRegistry r
      → RegisterEffect r o (register r o)
  unfolding register
  register_effect r none v = refl
  register_effect r (some c) v = elim (Bool-cases (str_eq c.name "")) [
    | inl e ↦ rw e (inl ((eq_iff c.name "").0 e))
    | inr e ↦ elim (Bool-cases (has c.name r.computers)) [
      | inl h ↦ rw (e, h) (inr h)
      | inr h ↦
          rw (e, h)
            (
              λ q. false≢true (sym e ∙ (eq_iff c.name "").1 q),
              h,
              insert-IsRegistry r c v,
              λ k. lookup-insert c.name k c r.computers,
            )
    ]
  ]

  -- Registering a list of computers, none of whose names is empty or taken
  abbrev pub IsFree : Registry F → MetricComputer F → Type 0
  IsFree r c = (str_eq c.name "" ≡ false) × (lookup c.name r.computers ≡ none)

  abbrev added : Registry F → MetricComputer F → Registry F
  added r c = rebuild_ordered (record r { computers = insert c.name c r.computers })

  abbrev pub or_old :
      Option (MetricComputer F) → Option (MetricComputer F) → Option (MetricComputer F)
  or_old (some c) old = some c
  or_old none old = old

  has-none : (k : String) (m : Dict (MetricComputer F)) → lookup k m ≡ none → has k m ≡ false
  unfolding has
  has-none k m h = rw (h, has) refl

  register_all-free :
      (r : Registry F) (c : MetricComputer F) (cs : List (MetricComputer F))
      → IsFree r c
      → register_all r (c ∷ cs) ≡ register_all (added r c) cs
  unfolding register_all
  register_all-free r c cs f = rw (f.0, has-none c.name r.computers f.1) refl

  added-IsFree :
      (r : Registry F) (c : MetricComputer F) (cs : List (MetricComputer F))
      → IsAbsent c.name cs
      → All (IsFree r) cs
      → All (IsFree (added r c)) cs
  unfolding rebuild_ordered
  added-IsFree r c [] d f = tt
  added-IsFree r c (e ∷ es) d f = (
    (
      f.0.0,
      ground (
        arith,
        lookup-insert c.name e.name c r.computers,
        eq_iff c.name e.name,
        eq_iff e.name c.name,
      ),
    ),
    added-IsFree r c es d.1 f.1,
  )

  lookup-added :
      (r : Registry F) (c : MetricComputer F) (cs : List (MetricComputer F)) (k : String)
      → IsAbsent c.name cs
      → or_old (find k cs) (lookup k (added r c).computers)
        ≡ or_old (find k (c ∷ cs)) (lookup k r.computers)
  unfolding rebuild_ordered
  lookup-added r c cs k d = elim (Bool-cases (str_eq c.name k)) [
    | inl e ↦
        let absent = find-IsAbsent k cs (subst (λ x. IsAbsent x cs) ((eq_iff c.name k).0 e) d) in
        rw (lookup-insert c.name k c r.computers) (rw (e, absent) refl)
    | inr e ↦ rw (lookup-insert c.name k c r.computers) (rw e refl)
  ]

  pub register_all_lem :
      (r : Registry F) (cs : List (MetricComputer F))
      → IsRegistry r
      → IsDistinct cs
      → All (IsFree r) cs
      → IsRegistry (register_all r cs)
        × ((k : String)
            → lookup k (register_all r cs).computers ≡ or_old (find k cs) (lookup k r.computers))
  unfolding register_all rebuild_ordered
  register_all_lem r [] v d f = (v, λ k. refl)
  register_all_lem r (c ∷ cs) v d f =
      let rest =
        register_all_lem (added r c) cs (insert-IsRegistry r c v) d.1
          (added-IsFree r c cs d.0 f.1) in
      rw (register_all-free r c cs f.0) (rest.0, λ k. rest.1 k ∙ lookup-added r c cs k d.0)

  find-skip :
      (c : MetricComputer F) (cs es : List (MetricComputer F))
      → IsAbsent c.name es
      → All (λ e. find e.name cs ≡ some e) es
      → All (λ e. find e.name (c ∷ cs) ≡ some e) es
  find-skip c cs [] d h = tt
  find-skip c cs (e ∷ es) d h =
      (ground (arith, eq_iff c.name e.name, eq_iff e.name c.name, h.0), find-skip c cs es d.1 h.1)

  pub find-All :
      (cs : List (MetricComputer F)) → IsDistinct cs → All (λ c. find c.name cs ≡ some c) cs
  find-All [] d = tt
  find-All (c ∷ cs) d = (rw (eq_refl c.name) refl, find-skip c cs cs d.0 (find-All cs d.1))

  pub empty-IsRegistry : IsRegistry (empty_registry {F = F})
  empty-IsRegistry = record { is_map = tt; named_by = tt; in_order = refl }

  holds-found :
      (r : Registry F) (all cs : List (MetricComputer F))
      → ((k : String) → lookup k r.computers ≡ or_old (find k all) none)
      → All (λ c. find c.name all ≡ some c) cs
      → All (λ c. lookup c.name r.computers ≡ some c) cs
  holds-found r all [] h f = tt
  holds-found r all (c ∷ cs) h f = (h c.name ∙ rw f.0 refl, holds-found r all cs h f.1)

  -- An empty registry takes every computer of such a list.
  pub register_all-holds :
      (cs : List (MetricComputer F))
      → IsDistinct cs
      → All (IsFree empty_registry) cs
      → IsRegistry (register_all empty_registry cs)
        × All (λ c. lookup c.name (register_all empty_registry cs).computers ≡ some c) cs
  unfolding lookup
  register_all-holds cs d f =
      let all = register_all_lem empty_registry cs empty-IsRegistry d f in
      (all.0, holds-found (register_all empty_registry cs) cs cs all.1 (find-All cs d))
