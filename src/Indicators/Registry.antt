-- ===== src/Indicators/Registry.antt =====
-- pkg/indicator/registry.go. Each method runs under the registry's lock.
use stock_scanner.Prelude.{
  String, not, Option, none, some, List, str_eq, Result, ok, err, ◌>>◌, fail_if,
}
use stock_scanner.Dict.{Dict, lookup, insert, remove, has, keys}

pub data RegistryError : Type 0 where
  nil_calculator empty_name : RegistryError
  already_registered not_found : String → RegistryError

-- The registry is its map of calculators.
module _ {S : Type 0} where
  -- `name_of` is the calculators' method Name.
  unfoldable pub register_calculator :
      (S → String) → Dict S → Option S → Result RegistryError (Dict S)
  unfolding has insert
  register_calculator name_of r none = err nil_calculator
  register_calculator name_of r (some c) = do
    fail_if (str_eq (name_of c) "") empty_name
    fail_if (has (name_of c) r) (already_registered (name_of c))
    ok (insert (name_of c) c r)

  unfoldable pub get_calculator : Dict S → String → Result RegistryError S
  unfolding lookup
  get_calculator r name = elim (lookup name r) [ none ↦ err (not_found name) | some c ↦ ok c ]

  abbrev pub list_calculators : Dict S → List String
  list_calculators r = keys r

  unfoldable pub unregister_calculator : Dict S → String → Result RegistryError (Dict S)
  unfolding has remove
  unregister_calculator r name = do fail_if (not (has name r)) (not_found name); ok (remove name r)
