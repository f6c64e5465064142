-- ===== src/Dict.antt =====
-- Go's `map[string]V` as an association list. The order of the entries stands for the order in
-- which `range` visits them: a theorem about every dictionary is one about every such order.
pub mod Laws
use stock_scanner.Prelude.{
  ℕ, String, ◌≡◌, Bool, true, false, Option, none, some, List, [], ◌∷◌, map, str_eq, if◌then◌else◌,
  length,
}

abbrev pub Dict {ℓ} : Type ℓ → Type ℓ
Dict V = List (String × V)

module _ {ℓ} {V : Type ℓ} where
  -- v, ok := m[k]
  unfoldable pub lookup : String → Dict V → Option V
  lookup k [] = none
  lookup k (entry ∷ m) = let later = lookup k m in if str_eq entry.0 k then some entry.1 else later

  -- m[k] = v
  unfoldable pub insert : String → V → Dict V → Dict V
  insert k v [] = (k, v) ∷ []
  insert k v (entry ∷ m) =
      let later = insert k v m in if str_eq entry.0 k then (k, v) ∷ m else entry ∷ later

  -- delete(m, k)
  unfoldable pub remove : String → Dict V → Dict V
  remove k [] = []
  remove k ((j, w) ∷ m) = let rest = remove k m in if str_eq j k then rest else (j, w) ∷ rest

  -- _, ok := m[k]
  unfoldable pub has : String → Dict V → Bool
  unfolding lookup
  has k m = elim (lookup k m) [ none ↦ false | some v ↦ true ]

  -- `m[k]` where the zero value of `V` is `z`.
  unfoldable pub get_or : V → String → Dict V → V
  unfolding lookup
  get_or z k m = elim (lookup k m) [ none ↦ z | some v ↦ v ]

  abbrev pub keys : Dict V → List String
  keys = map (λ e. e.0)

  abbrev pub values : Dict V → List V
  values = map (λ e. e.1)

  -- A Go map holds a key once.
  abbrev pub Fresh : String → Dict V → Type 0
  Fresh k [] = Unit {0}
  Fresh k ((j, w) ∷ m) = (str_eq j k ≡ false) × Fresh k m

  abbrev pub IsMap : Dict V → Type 0
  IsMap [] = Unit {0}
  IsMap ((k, v) ∷ m) = Fresh k m × IsMap m
