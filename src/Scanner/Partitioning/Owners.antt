-- ===== src/Scanner/Partitioning/Owners.antt =====
-- Each symbol has one owner, and a change of the number of workers keeps exactly the owned symbols.
use stock_scanner.Prelude.{
  ℕ, zero, suc, ◌+◌, ◌%◌, ◌^◌, ◌<◌, ◌≤◌, String, ◌≡◌, refl, Bool, true, false, not, ◌&&◌, some, [],
  ◌∷◌, str_eq, eq_iff, if◌then◌else◌, ◌==◌, ltb, ok, err, is_ok, arith, bytes,
}
use stock_scanner.Int64.{is_neg, is_nonpos, slt}
use stock_scanner.Dict.{Dict, lookup, insert, get_or, has, IsMap}
use stock_scanner.Dict.Laws.{lookup-insert, lookup-Fresh, lookup-empty}
use stock_scanner.Scanner.Partitioning.{
  PartitionManager, new_partition_manager, fnv1a, offset_basis, get_partition, is_owned,
  is_assigned, keep_owned, update_worker_count,
}

-- Whether the worker with this number, out of `n`, can be set up and owns the symbol.
abbrev pub owns : ℕ → ℕ → String → Bool
owns w n symbol = elim (new_partition_manager w n) [ ok pm ↦ is_owned pm symbol | err e ↦ false ]

-- How many of the workers below `k`, out of `n`, own the symbol.
abbrev pub owners : ℕ → ℕ → String → ℕ
owners zero n symbol = 0
owners (suc k) n symbol = (if owns k n symbol then 1 else 0) + owners k n symbol

small-is_neg : (w : ℕ) → w < 2 ^ 63 → is_neg w ≡ false
small-is_neg w h = ground arith

small-is_nonpos : (n : ℕ) → 0 < n → n < 2 ^ 63 → is_nonpos n ≡ false
small-is_nonpos n p h = ground arith

small-slt : (w n : ℕ) → w < n → n < 2 ^ 63 → slt w n ≡ true
small-slt w n h b = ground arith

owns_exact :
    (w n : ℕ) (symbol : String)
    → w < n
    → n < 2 ^ 63
    → str_eq symbol "" ≡ false
    → owns w n symbol ≡ (fnv1a offset_basis (bytes symbol) % n == w)
unfolding new_partition_manager is_owned get_partition
owns_exact w n symbol h b e =
    ground
      (arith, small-is_neg w (omega arith), small-is_nonpos n (omega arith) b, small-slt w n h b)

owners_below :
    (k n : ℕ) (symbol : String)
    → k ≤ n
    → n < 2 ^ 63
    → str_eq symbol "" ≡ false
    → owners k n symbol ≡ (if ltb (fnv1a offset_basis (bytes symbol) % n) k then 1 else 0)
owners_below zero n symbol h b e = ground arith
owners_below (suc k) n symbol h b e =
    ground
      (arith, owns_exact k n symbol (omega arith) b e, owners_below k n symbol (omega arith) b e)

-- Among the workers 0 to n - 1, for any positive number n of them that fits an `int`, exactly one
-- can be set up that owns a given non-empty symbol.
pub owners-eq-one :
    (n : ℕ) (symbol : String)
    → 0 < n
    → n < 2 ^ 63
    → str_eq symbol "" ≡ false
    → owners n n symbol ≡ 1
owners-eq-one n symbol p b e = ground (arith, owners_below n n symbol (omega arith) b e)

lookup-keep_owned :
    (pm : PartitionManager) (m kept : Dict Bool) (symbol : String)
    → IsMap m
    → lookup symbol (keep_owned pm m kept) ≡ (
        if has symbol m && (get_partition pm symbol == pm.worker_id)
        then some true
        else lookup symbol kept)
unfolding keep_owned has lookup
lookup-keep_owned pm [] kept symbol u = refl
lookup-keep_owned pm ((j, x) ∷ m) kept symbol u = ground (
  arith,
  lookup-keep_owned pm m (insert j true kept) symbol u.1,
  lookup-keep_owned pm m kept symbol u.1,
  lookup-insert j symbol true kept,
  lookup-Fresh j m u.0,
  eq_iff j symbol,
)

-- UpdateWorkerCount succeeds exactly for a positive number above this worker's. Then a symbol is
-- assigned afterwards exactly if its key was in the map before and this worker owns it under the
-- new number; a failure changes nothing.
pub update_worker_count_effect :
    (pm : PartitionManager) (n : ℕ) (symbol : String)
    → IsMap pm.assigned_symbols
    → str_eq symbol "" ≡ false
    → let r = update_worker_count pm n in
      (is_ok r.0 ≡ (not (is_nonpos n) && slt pm.worker_id n))
      × (is_assigned r.1 symbol ≡ (
          if is_ok r.0
          then has symbol pm.assigned_symbols && is_owned r.1 symbol
          else is_assigned pm symbol))
unfolding update_worker_count is_assigned is_owned get_or get_partition
update_worker_count_effect pm n symbol u e = ground (
  arith,
  lookup-keep_owned (record pm { total_workers = n }) pm.assigned_symbols [] symbol u,
  lookup-empty {V = Bool} symbol,
)
