-- ===== src/Scanner/ScanLoop/Times.antt =====
-- The statistics of the cycle times.
use stock_scanner.Prelude.{ℕ, ◌<◌, ◌≤◌, ◌+◌, ◌^◌, ◌%◌, ◌≡◌, List, [], ◌∷◌, All, length, arith}
use stock_scanner.Int64.{word}
use stock_scanner.Scanner.ScanLoop.{Stats, new_stats, update_stats}

abbrev pub record_all : Stats → List ℕ → Stats
record_all s [] = s
record_all s (t ∷ ts) = record_all (update_stats s t) ts

abbrev pub total : List ℕ → ℕ
total [] = 0
total (t ∷ ts) = t + total ts

abbrev pub Between : Stats → ℕ → Type 0
Between s t = (s.min_scan_cycle_time ≤ t) × (t ≤ s.max_scan_cycle_time)

record IsBounded (s : Stats) : Type 0 where
  low : s.min_scan_cycle_time < 2 ^ 63
  high : s.max_scan_cycle_time < 2 ^ 63

update_stats-IsBounded :
    (s : Stats) (t : ℕ) → t < 2 ^ 63 → IsBounded s → IsBounded (update_stats s t)
unfolding update_stats
update_stats-IsBounded s t p b = ground arith

record Widens (s s' : Stats) : Type 0 where
  lower : s'.min_scan_cycle_time ≤ s.min_scan_cycle_time
  higher : s.max_scan_cycle_time ≤ s'.max_scan_cycle_time

update_stats-Widens :
    (s : Stats) (t : ℕ)
    → t < 2 ^ 63
    → IsBounded s
    → Widens s (update_stats s t) × Between (update_stats s t) t
unfolding update_stats
update_stats-Widens s t p b = ground arith

record_all-Widens :
    (s : Stats) (ts : List ℕ) → All (λ t. t < 2 ^ 63) ts → IsBounded s → Widens s (record_all s ts)
record_all-Widens s [] p b = ground arith
record_all-Widens s (t ∷ ts) p b = ground (
  arith,
  update_stats-Widens s t p.0 b,
  record_all-Widens (update_stats s t) ts p.1 (update_stats-IsBounded s t p.0 b),
)

All-Between :
    (s : Stats) (ts : List ℕ)
    → All (λ t. t < 2 ^ 63) ts
    → IsBounded s
    → All (Between (record_all s ts)) ts
All-Between s [] p b = tt
All-Between s (t ∷ ts) p b =
    let kept = update_stats-IsBounded s t p.0 b in
    (
      ground
          (arith, update_stats-Widens s t p.0 b, record_all-Widens (update_stats s t) ts p.1 kept),
      All-Between (update_stats s t) ts p.1 kept,
    )

record_all-sum :
    (s : Stats) (ts : List ℕ)
    → s.scan_cycles < word
    → s.scan_cycle_time_sum < word
    → ((record_all s ts).scan_cycles ≡ (s.scan_cycles + length ts) % word)
      × ((record_all s ts).scan_cycle_time_sum ≡ (s.scan_cycle_time_sum + total ts) % word)
unfolding update_stats
record_all-sum s [] p q = omega arith
record_all-sum s (t ∷ ts) p q =
    ground (arith, record_all-sum (update_stats s t) ts (omega arith) (omega arith))

-- After any cycle times that are not negative, the minimum and the maximum bound each of them, and
-- the count and the sum are those of the times, modulo 2^64.
pub record_all-Between :
    (ts : List ℕ)
    → All (λ t. t < 2 ^ 63) ts
    → All (Between (record_all new_stats ts)) ts
      × ((record_all new_stats ts).scan_cycles ≡ length ts % word)
      × ((record_all new_stats ts).scan_cycle_time_sum ≡ total ts % word)
unfolding new_stats
record_all-Between ts p =
    let sums = record_all-sum new_stats ts (omega arith) (omega arith) in
    (
      All-Between new_stats ts p (record { low = omega arith; high = omega arith }),
      omega (arith, sums.0),
      omega (arith, sums.1),
    )
