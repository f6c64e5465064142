-- ===== src/Tests/Workers.antt =====
-- The cooldowns, the partitions and the sessions of a worker, on concrete values.
use stock_scanner.Prelude.{
  ℕ, ◌+◌, ◌*◌, ◌≤◌, ◌<◌, ◌≡◌, refl, arith, true, ◌&&◌, none, some, [], ◌∷◌, str_eq, ltb,
  if◌then◌else◌,
}
use stock_scanner.Scanner.Cooldown.{Tracker, is_on_cooldown, record_cooldown, cleanup_expired}
use stock_scanner.Scanner.Cooldown.Keys.{IsBarFree}
use stock_scanner.Scanner.Cooldown.Expiry.{
  is_on_cooldown-cleanup_expired, is_on_cooldown-record_cooldown,
}
use stock_scanner.Scanner.Partitioning.{PartitionManager}
use stock_scanner.Scanner.Partitioning.Owners.{owners, owners-eq-one}
use stock_scanner.Scanner.Session.{time_of_day, get_market_session}
use stock_scanner.Scanner.Session.Fallback.{standard_time, fallback-standard_time}

abbrev tracker : Tracker
tracker = record {
  cooldowns = ("r1|AAPL", 20) ∷ ("r2|AAPL", 90) ∷ [];
  global_cooldown = 10;
  cleanup_interval = 300;
  running = true;
}

is_on_cooldown-cleanup_expired_example :
    is_on_cooldown (cleanup_expired tracker 30) 40 "r2" "AAPL"
    ≡ is_on_cooldown tracker 40 "r2" "AAPL"
is_on_cooldown-cleanup_expired_example =
    is_on_cooldown-cleanup_expired tracker 30 40 "r2" "AAPL" ((refl, tt), (tt, tt)) (omega arith)

r1-IsBarFree : IsBarFree "r1"
r1-IsBarFree = (λ e. omega (arith, e), (λ e. omega (arith, e), tt))

is_on_cooldown-record_cooldown_example :
    is_on_cooldown (record_cooldown tracker 30 "r1" "AAPL" 0) 35 "r1" "MSFT" ≡ (
      if str_eq "r1" "r1" && str_eq "AAPL" "MSFT"
      then ltb 35 40
      else is_on_cooldown tracker 35 "r1" "MSFT")
is_on_cooldown-record_cooldown_example =
    is_on_cooldown-record_cooldown tracker 30 35 0 "r1" "AAPL" "r1" "MSFT" refl refl refl
      r1-IsBarFree r1-IsBarFree

owners-eq-one_example : owners 3 3 "AAPL" ≡ 1
owners-eq-one_example = owners-eq-one 3 "AAPL" (omega arith) (omega arith) refl

abbrev second_worker : PartitionManager
second_worker = record {
  worker_id = 1;
  total_workers = 2;
  assigned_symbols = ("AAPL", true) ∷ ("MSFT", true) ∷ [];
}

-- 15:00 UTC on a Monday
abbrev monday_afternoon : ℕ
monday_afternoon = 15 * 3600000000000

afternoon : 300 ≤ time_of_day monday_afternoon
unfolding time_of_day
afternoon = omega arith

fallback-standard_time_example :
    get_market_session none monday_afternoon
    ≡ get_market_session (some standard_time) monday_afternoon
fallback-standard_time_example = fallback-standard_time monday_afternoon afternoon

-- 00:10 UTC on a Saturday
abbrev saturday_night : ℕ
saturday_night = 5 * 86400000000000 + 600000000000

night : time_of_day saturday_night < 60
unfolding time_of_day
night = omega arith
