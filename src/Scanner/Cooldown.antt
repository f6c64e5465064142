-- ===== src/Scanner/Cooldown.antt =====
-- internal/scanner/cooldown.go: InMemoryCooldownTracker. `now` is the clock's reading. The cleanup
-- goroutine is a call of `cleanup_expired` at any time while the tracker is running.
pub mod Keys
pub mod Expiry
use stock_scanner.Prelude.{
  ℕ, ◌+◌, ◌*◌, String, Bool, true, false, not, ◌||◌, Option, none, some, List, [], ◌∷◌, str_eq,
  str_append, ltb, if◌then◌else◌, Result, ok, err, length,
}
use stock_scanner.Int64.{is_nonpos}
use stock_scanner.Dict.{Dict, lookup, insert, remove, get_or}

pub record Tracker : Type 0 where
  pub cooldowns : Dict ℕ
  pub global_cooldown : ℕ
  pub cleanup_interval : ℕ
  pub running : Bool

pub data TrackerError : Type 0 where
  already_running : TrackerError

-- 5 * time.Minute
abbrev pub default_cleanup : ℕ
default_cleanup = 300000000000

unfoldable pub new_cooldown_tracker : ℕ → ℕ → Tracker
new_cooldown_tracker cooldown interval = record {
  cooldowns = [];
  global_cooldown = cooldown;
  cleanup_interval = if is_nonpos interval then default_cleanup else interval;
  running = false;
}

unfoldable pub start : Tracker → Result TrackerError (Unit {0}) × Tracker
start ct = if ct.running then (err already_running, ct) else (ok tt, record ct { running = true })

unfoldable pub stop : Tracker → Tracker
stop ct = if ct.running then record ct { running = false } else ct

-- ruleID + "|" + symbol
unfoldable pub key : String → String → String
key rule_id symbol = str_append rule_id (str_append "|" symbol)

abbrev pub unnamed : String → String → Bool
unnamed rule_id symbol = str_eq rule_id "" || str_eq symbol ""

abbrev pub before : ℕ → Option ℕ → Bool
before now none = false
before now (some cooldown_end) = ltb now cooldown_end

unfoldable pub is_on_cooldown : Tracker → ℕ → String → String → Bool
is_on_cooldown ct now rule_id symbol =
    if unnamed rule_id symbol then false else before now (lookup (key rule_id symbol) ct.cooldowns)

-- The third argument of RecordCooldown is not used.
unfoldable pub record_cooldown : Tracker → ℕ → String → String → ℕ → Tracker
record_cooldown ct now rule_id symbol cooldown_seconds =
    if unnamed rule_id symbol then ct else if is_nonpos ct.global_cooldown then ct else record ct {
      cooldowns = insert (key rule_id symbol) (now + ct.global_cooldown) ct.cooldowns;
    }

-- The zero time where there is no entry
unfoldable pub get_cooldown_end : Tracker → String → String → ℕ
get_cooldown_end ct rule_id symbol =
    if unnamed rule_id symbol then 0 else get_or 0 (key rule_id symbol) ct.cooldowns

unfoldable pub clear_cooldown : Tracker → String → String → Tracker
clear_cooldown ct rule_id symbol =
    if unnamed rule_id symbol
    then ct
    else record ct { cooldowns = remove (key rule_id symbol) ct.cooldowns }

unfoldable pub clear_all_cooldowns : Tracker → Tracker
clear_all_cooldowns ct = record ct { cooldowns = [] }

unfoldable pub get_cooldown_count : Tracker → ℕ
get_cooldown_count ct = length ct.cooldowns

-- The keys whose cooldown ended before `now`
pub expired : ℕ → Dict ℕ → List String
expired now [] = []
expired now ((k, cooldown_end) ∷ m) =
    let rest = expired now m in if ltb cooldown_end now then k ∷ rest else rest

pub remove_all : List String → Dict ℕ → Dict ℕ
remove_all [] m = m
remove_all (k ∷ ks) m = remove_all ks (remove k m)

unfoldable pub cleanup_expired : Tracker → ℕ → Tracker
unfolding expired remove_all
cleanup_expired ct now = record ct {
  cooldowns = remove_all (expired now ct.cooldowns) ct.cooldowns;
}
