-- ===== src/Scanner/ScanLoop/Spacing.antt =====
-- Alerts of one rule for one symbol are at least the global cooldown apart.
use stock_scanner.Prelude.{
  ℕ, suc, ◌≤◌, ◌≡◌, refl, String, Bool, false, Option, none, some, List, [], ◌∷◌, ◌⊎◌, inl, inr,
  Result, arith, All, Option-cases,
}
use stock_scanner.Float.{Float}
use stock_scanner.Int64.{add, is_nonpos}
use stock_scanner.Dict.{Dict, lookup, get_or, IsMap}
use stock_scanner.Models.Rule.{Rule}
use stock_scanner.Models.Alert.{Alert}
use stock_scanner.Rules.Error.{RuleError}
use stock_scanner.Rules.Compiler.{CompiledRule}
use stock_scanner.Scanner.Cooldown.{Tracker, key, new_cooldown_tracker, cleanup_expired, expired}
use stock_scanner.Scanner.Cooldown.Expiry.{lookup-remove_all, hit-expired, remove_all-IsMap}
use stock_scanner.Scanner.State.{StateManager}
use stock_scanner.Scanner.Snapshot.{SymbolStateSnapshot, take_snapshot}
use stock_scanner.Scanner.Emitter.{Env, now}
use stock_scanner.Scanner.ScanLoop.{
  Cycle, Compute, ScanLoop, scan_rule, scan_rules, get_metrics_from_snapshot, scan_symbol,
  scan_symbols, scan_cycle, scan, no_totals,
}
use stock_scanner.Scanner.ScanLoop.Effects.{
  IsClock, until, Effect, quiet, IsKeyed, scan_rule-Effect,
}
use stock_scanner.Scanner.ScanLoop.Invariant.{Spaced, Covers, Holds, Inv, moved, Effect-Inv}

module _ {F : Type 0} ⦃fl : Float F⦄ (env : Env F) where
  cached-quiet :
      (compute : Compute F) (snap : SymbolStateSnapshot F) (required : Dict Bool) (c : Cycle F)
      → Effect env c (get_metrics_from_snapshot env compute snap required c).1
  unfolding get_metrics_from_snapshot
  cached-quiet compute snap required c = elim (Option-cases (lookup snap.symbol c.manager.states)) [
    | inl e ↦ quiet (ground arith) (ground arith) (ground arith)
    | inr (st, e) ↦ quiet (ground arith) (ground arith) (ground arith)
  ]

-- What happens to the scanner over time: ticks, bars and indicator values change the state
-- manager, a cycle is run, the cleanup runs.
pub data Work (F : Type 0) : Type 0 where
  updated : StateManager F → Work F
  scanned : (String → Result RuleError (Rule F)) → ScanLoop F → Work F
  cleaned : Work F

abbrev cleaned_tracker : ℕ → Option Tracker → Option Tracker
cleaned_tracker t none = none
cleaned_tracker t (some ct) = some (cleanup_expired ct t)

until-cleanup_expired :
    (ct : Tracker) (t : ℕ) (r s : String)
    → IsMap ct.cooldowns
    → (until (some ct) r s ≤ until (some (cleanup_expired ct t)) r s) ⊎ (until (some ct) r s ≤ t)
unfolding cleanup_expired get_or
until-cleanup_expired ct t r s u = ground (
  arith,
  lookup-remove_all (expired t ct.cooldowns) ct.cooldowns (key r s),
  hit-expired t ct.cooldowns (key r s) u,
)

cleaned-Covers :
    {F : Type 0} (d : ℕ) (ct : Tracker) (t t' : ℕ) (xs : List (Alert F))
    → t ≤ t'
    → IsMap ct.cooldowns
    → All (Covers d (some ct) t) xs
    → All (Covers d (some (cleanup_expired ct t)) t') xs
cleaned-Covers d ct t t' [] h u cs = tt
cleaned-Covers d ct t t' (a ∷ xs) h u cs = (
  ground (arith, until-cleanup_expired ct t a.rule_id a.symbol u),
  cleaned-Covers d ct t t' xs h u cs.1,
)

cleaned-Holds :
    {F : Type 0} (d : ℕ) (o : Option Tracker) (t t' : ℕ) (xs : List (Alert F))
    → t ≤ t'
    → Holds d o t xs
    → Holds d (cleaned_tracker t o) t' xs
unfolding cleanup_expired
cleaned-Holds d none t t' xs h (k, cs, sp) = elim k [ ]
cleaned-Holds d (some ct) t t' xs h (k, cs, sp) = (
  (k.0, remove_all-IsMap (expired t ct.cooldowns) ct.cooldowns k.1),
  cleaned-Covers d ct t t' xs h k.1 cs,
  sp,
)

module _ {F : Type 0} ⦃fl : Float F⦄ (env : Env F) (compute : Compute F) where
  pub work : Cycle F → Work F → Cycle F
  work c (updated sm) = record c { manager = sm }
  work c (scanned rule_of sl) = (scan env rule_of compute sl c).1
  work c cleaned = record c {
    tracker = cleaned_tracker (now env c.world) c.tracker;
    world = record c.world { reads = suc c.world.reads };
  }

  pub work_all : Cycle F → List (Work F) → Cycle F
  work_all c [] = c
  work_all c (x ∷ xs) = work_all (work c x) xs

  -- The rules of every cycle come from a store that gives each under its own ID.
  abbrev pub IsKeyedWork : Work F → Type 0
  IsKeyedWork (updated sm) = Unit {0}
  IsKeyedWork (scanned rule_of sl) = IsKeyed env rule_of
  IsKeyedWork cleaned = Unit {0}

  module _ (mono : IsClock env) (d : ℕ) (positive : is_nonpos d ≡ false) where
    scan_rules-Inv :
        (rule_of : String → Result RuleError (Rule F)) (m : Dict F) (snap : SymbolStateSnapshot F)
        (rules : Dict (CompiledRule F)) (c : Cycle F)
        → IsKeyed env rule_of
        → Inv env d c
        → Inv env d (scan_rules env rule_of m snap rules c)
    unfolding scan_rules
    scan_rules-Inv rule_of m snap [] c k v = v
    scan_rules-Inv rule_of m snap ((id, f) ∷ rest) c k v =
        scan_rules-Inv rule_of m snap rest (scan_rule env rule_of m snap id f c) k
          (Effect-Inv env mono d positive (scan_rule-Effect env rule_of m snap id f c mono k) v)

    scan_symbol-Inv :
        (rule_of : String → Result RuleError (Rule F)) (required : Dict Bool)
        (rules : Dict (CompiledRule F)) (snap : SymbolStateSnapshot F) (c : Cycle F)
        → IsKeyed env rule_of
        → Inv env d c
        → Inv env d (scan_symbol env rule_of compute required rules snap c)
    unfolding scan_symbol
    scan_symbol-Inv rule_of required rules snap c k v =
        let counted = record c {
          totals = record c.totals { symbols_scanned = add c.totals.symbols_scanned 1 };
        } in
        let got = get_metrics_from_snapshot env compute snap required counted in
        scan_rules-Inv rule_of got.0 snap rules got.1 k
          (Effect-Inv env mono d positive (cached-quiet env compute snap required counted) v)

    scan_symbols-Inv :
        (rule_of : String → Result RuleError (Rule F)) (required : Dict Bool)
        (rules : Dict (CompiledRule F)) (states : Dict (SymbolStateSnapshot F))
        (symbols : List String) (c : Cycle F)
        → IsKeyed env rule_of
        → Inv env d c
        → Inv env d (scan_symbols env rule_of compute required rules states symbols c)
    unfolding scan_symbols
    scan_symbols-Inv rule_of required rules states [] c k v = v
    scan_symbols-Inv rule_of required rules states (symbol ∷ symbols) c k v =
        scan_symbols-Inv rule_of required rules states symbols _ k (go (lookup symbol states))
      where
        go :
            (o : Option (SymbolStateSnapshot F))
            → Inv env d (elim o as (λ _. Cycle F) [
              | none ↦ c
              | some snap ↦ scan_symbol env rule_of compute required rules snap c
            ])
        go none = v
        go (some snap) = scan_symbol-Inv rule_of required rules snap c k v

    ticked :
        (c : Cycle F)
        → Inv env d c
        → Inv env d (record c { world = record c.world { reads = suc c.world.reads } })
    ticked c v =
        Effect-Inv env mono d positive {c = c}
          {c' = record c { world = record c.world { reads = suc c.world.reads } }}
          (quiet refl refl (omega arith)) v

    scan-Inv :
        (rule_of : String → Result RuleError (Rule F)) (sl : ScanLoop F) (c : Cycle F)
        → IsKeyed env rule_of
        → Inv env d c
        → Inv env d (scan env rule_of compute sl c).1
    unfolding scan scan_cycle
    scan-Inv rule_of sl c k v =
        let started = record c { world = record c.world { reads = suc c.world.reads } } in
        let snapshot = take_snapshot c.manager in
        let clear = record started { totals = no_totals } in
        let scanned_all =
          scan_symbols env rule_of compute sl.required_metrics sl.compiled_rules snapshot.states
            snapshot.symbols clear in
        ticked scanned_all (
          scan_symbols-Inv rule_of sl.required_metrics sl.compiled_rules snapshot.states
            snapshot.symbols clear k (ticked c v))

    cleaned-Inv : (c : Cycle F) → Inv env d c → Inv env d (work c cleaned)
    unfolding work
    cleaned-Inv c v =
        cleaned-Holds d c.tracker (now env c.world) _ c.world.stream (mono c.world.reads) v

    work_all-Inv :
        (c : Cycle F) (xs : List (Work F))
        → All IsKeyedWork xs
        → Inv env d c
        → Inv env d (work_all c xs)
    unfolding work_all work
    work_all-Inv c [] k v = v
    work_all-Inv c (updated sm ∷ xs) k v = work_all-Inv (record c { manager = sm }) xs k.1 v
    work_all-Inv c (scanned rule_of sl ∷ xs) k v =
        work_all-Inv (scan env rule_of compute sl c).1 xs k.1 (scan-Inv rule_of sl c k.0 v)
    work_all-Inv c (cleaned ∷ xs) k v = work_all-Inv (work c cleaned) xs k.1 (cleaned-Inv c v)

  -- From a new tracker with a positive global cooldown and an empty stream, whatever updates,
  -- cycles and cleanups follow under a clock that does not go back, and with rules that stand under
  -- their own IDs: two published alerts of one rule for one symbol are stamped at least the global
  -- cooldown apart.
  pub work_all-Spaced :
      (d interval : ℕ) (c : Cycle F) (xs : List (Work F))
      → IsClock env
      → is_nonpos d ≡ false
      → All IsKeyedWork xs
      → c.tracker ≡ some (new_cooldown_tracker d interval)
      → c.world.stream ≡ []
      → Spaced d (work_all c xs).world.stream
  unfolding new_cooldown_tracker
  work_all-Spaced d interval c xs mono p k t e =
      (work_all-Inv mono d p c xs k (moved d (now env c.world) t e ((refl, tt), tt, tt))).2
