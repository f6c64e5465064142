-- ===== src/Metrics/Registry.antt =====
-- internal/metrics/registry.go. Each method runs under the registry's lock. rebuildOrdered visits
-- the map of computers, so that the list has them in any order. A nil map of metric names reads
-- like an empty one. A computer's name is not empty in the registry, and it is its key.
pub mod BuiltIn
pub mod Laws
pub mod Registering
pub mod Standard
pub mod Sufficient
use stock_scanner.Prelude.{
  ℕ, String, Bool, true, false, Option, none, some, List, [], ◌∷◌, str_eq, if◌then◌else◌, Result,
  ok, err, ◌>>=◌, ◌>>◌, fail_if, is_empty,
}
use stock_scanner.Dict.{Dict, insert, has, get_or, values}
use stock_scanner.Scanner.Snapshot.{SymbolStateSnapshot}
use stock_scanner.Metrics.{MetricComputer}

pub data RegistryError : Type 0 where
  nil_computer empty_name : RegistryError
  already_registered : String → RegistryError

pub record Registry (F : Type 0) : Type 0 where
  pub computers : Dict (MetricComputer F)
  pub ordered : List (MetricComputer F)

-- ComputeAll takes every indicator and every computer.
abbrev pub any_name : String → Bool
any_name k = true

-- metricNames[key]
abbrev pub named : Dict Bool → String → Bool
named metric_names k = get_or false k metric_names

module _ {F : Type 0} where
  -- The registry that NewRegistry starts from
  abbrev pub empty_registry : Registry F
  empty_registry = record { computers = []; ordered = [] }

  unfoldable pub rebuild_ordered : Registry F → Registry F
  rebuild_ordered r = record r { ordered = values r.computers }

  unfoldable pub register :
      Registry F → Option (MetricComputer F) → Result RegistryError (Registry F)
  unfolding rebuild_ordered has insert
  register r none = err nil_computer
  register r (some c) = do
    fail_if (str_eq c.name "") empty_name
    fail_if (has c.name r.computers) (already_registered c.name)
    ok (rebuild_ordered (record r { computers = insert c.name c r.computers }))

  -- The errors of registerBuiltInMetrics are dropped.
  abbrev pub or_else : Registry F → Result RegistryError (Registry F) → Registry F
  or_else r (ok r') = r'
  or_else r (err e) = r

  unfoldable pub register_all : Registry F → List (MetricComputer F) → Registry F
  unfolding register
  register_all r [] = r
  register_all r (c ∷ cs) = register_all (or_else r (register r (some c))) cs

  -- metrics[key] = value, for each indicator that is wanted
  unfoldable pub copy_indicators : (String → Bool) → Dict F → Dict F → Dict F
  unfolding insert
  copy_indicators wanted metrics [] = metrics
  copy_indicators wanted metrics ((k, v) ∷ rest) =
      copy_indicators wanted (if wanted k then insert k v metrics else metrics) rest

  -- if value, ok := computer.Compute(snapshot); ok { metrics[name] = value }
  unfoldable pub store_value : String → Option F → Dict F → Dict F
  unfolding insert
  store_value name none metrics = metrics
  store_value name (some v) metrics = insert name v metrics

  -- The loop over the wanted computers
  unfoldable pub run_computers :
      (String → Bool) → ℕ → SymbolStateSnapshot F → List (MetricComputer F) → Dict F → Dict F
  unfolding store_value
  run_computers wanted now s [] metrics = metrics
  run_computers wanted now s (c ∷ cs) metrics =
      run_computers wanted now s cs
        (if wanted c.name then store_value c.name (c.compute now s) metrics else metrics)

  unfoldable pub compute_all : Registry F → ℕ → SymbolStateSnapshot F → Dict F
  unfolding run_computers copy_indicators
  compute_all r now s =
      run_computers any_name now s r.ordered (copy_indicators any_name [] s.indicators)

  unfoldable pub compute_metrics : Registry F → ℕ → SymbolStateSnapshot F → Dict Bool → Dict F
  unfolding compute_all run_computers copy_indicators get_or
  compute_metrics r now s metric_names =
      let metrics = copy_indicators (named metric_names) [] s.indicators in
      if is_empty metric_names
      then compute_all r now s
      else run_computers (named metric_names) now s r.ordered metrics
