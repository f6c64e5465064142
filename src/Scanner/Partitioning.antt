-- ===== src/Scanner/Partitioning.antt =====
-- internal/scanner/partitioning.go: which worker owns a symbol. The hash is FNV-1a with 32 bits, of
-- the standard library's hash/fnv. Worker numbers are 64-bit patterns (`int` on a 64-bit machine),
-- so the conversion of the 32-bit hash is never negative, and neither is the partition.
pub mod Owners
use stock_scanner.Prelude.{
  ℕ, ◌+◌, ◌*◌, ◌%◌, ◌^◌, String, Bool, true, false, not, Option, none, some, List, [], ◌∷◌, str_eq,
  bytes, bit_xor, if◌then◌else◌, ◌==◌, Result, ok, err, ◌>>=◌, ◌>>◌, fail_if, length,
}
use stock_scanner.Int64.{is_neg, is_nonpos, slt}
use stock_scanner.Dict.{Dict, insert, remove, get_or, keys}

pub record PartitionManager : Type 0 where
  pub worker_id : ℕ
  pub total_workers : ℕ
  pub assigned_symbols : Dict Bool

pub data PartitionError : Type 0 where
  negative_worker nonpositive_total worker_too_large : PartitionError

unfoldable pub new_partition_manager : ℕ → ℕ → Result PartitionError PartitionManager
new_partition_manager worker_id total_workers = do
  fail_if (is_neg worker_id) negative_worker
  fail_if (is_nonpos total_workers) nonpositive_total
  fail_if (not (slt worker_id total_workers)) worker_too_large
  ok (record { worker_id = worker_id; total_workers = total_workers; assigned_symbols = [] })

-- fnv.New32a: each byte is xored into the hash, which is then multiplied by the prime.
unfoldable pub fnv1a : ℕ → List ℕ → ℕ
fnv1a h [] = h
fnv1a h (b ∷ bs) = fnv1a (bit_xor h b * 16777619 % 2 ^ 32) bs

abbrev pub offset_basis : ℕ
offset_basis = 2166136261

unfoldable pub get_partition : PartitionManager → String → ℕ
get_partition pm symbol =
    if str_eq symbol "" then 0 else fnv1a offset_basis (bytes symbol) % pm.total_workers

unfoldable pub is_owned : PartitionManager → String → Bool
is_owned pm symbol = if str_eq symbol "" then false else get_partition pm symbol == pm.worker_id

unfoldable pub add_assigned_symbol : PartitionManager → String → PartitionManager
add_assigned_symbol pm symbol =
    if str_eq symbol ""
    then pm
    else record pm { assigned_symbols = insert symbol true pm.assigned_symbols }

unfoldable pub remove_assigned_symbol : PartitionManager → String → PartitionManager
remove_assigned_symbol pm symbol =
    if str_eq symbol ""
    then pm
    else record pm { assigned_symbols = remove symbol pm.assigned_symbols }

unfoldable pub is_assigned : PartitionManager → String → Bool
is_assigned pm symbol = if str_eq symbol "" then false else get_or false symbol pm.assigned_symbols

unfoldable pub get_assigned_symbols : PartitionManager → List String
get_assigned_symbols pm = keys pm.assigned_symbols

unfoldable pub get_assigned_symbol_count : PartitionManager → ℕ
get_assigned_symbol_count pm = length pm.assigned_symbols

unfoldable pub clear_assigned_symbols : PartitionManager → PartitionManager
clear_assigned_symbols pm = record pm { assigned_symbols = [] }

-- The loop of UpdateWorkerCount over the assigned symbols, into a new map
unfoldable pub keep_owned : PartitionManager → Dict Bool → Dict Bool → Dict Bool
keep_owned pm [] kept = kept
keep_owned pm ((symbol, _) ∷ rest) kept =
    keep_owned pm rest
      (if get_partition pm symbol == pm.worker_id then insert symbol true kept else kept)

unfoldable pub update_worker_count :
    PartitionManager → ℕ → Result PartitionError (Unit {0}) × PartitionManager
update_worker_count pm total_workers =
    if is_nonpos total_workers
    then (err nonpositive_total, pm)
    else if not (slt pm.worker_id total_workers)
    then (err worker_too_large, pm)
    else let pm' = record pm { total_workers = total_workers } in
      (ok tt, record pm' { assigned_symbols = keep_owned pm' pm.assigned_symbols [] })
