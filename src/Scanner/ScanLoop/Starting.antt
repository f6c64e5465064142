-- ===== src/Scanner/ScanLoop/Starting.antt =====
-- Starting the loop and reloading its rules.
use stock_scanner.Prelude.{
  ℕ, ◌≡◌, refl, ap, ◌∙◌, Bool, true, false, List, [], ◌∷◌, Result, ok, err, arith,
}
use stock_scanner.Float.{Float}
use stock_scanner.Dict.{Dict}
use stock_scanner.Models.Rule.{Rule}
use stock_scanner.Rules.Error.{RuleError}
use stock_scanner.Rules.Resolver.{MetricResolver}
use stock_scanner.Scanner.ScanLoop.{ScanLoop, already_running, start, stop, reload_rules}

stopped : {F : Type 0} (sl : ScanLoop F) → sl.running ≡ true → (stop sl).running ≡ false
unfolding stop
stopped sl h = rw (h) refl

module _ {F : Type 0} ⦃fl : Float F⦄ (resolver : MetricResolver F)
    (required : List (Rule F) → Dict Bool) (now now' : ℕ) where
  reload_rules-running :
      (rules : Result RuleError (List (Rule F))) (sl : ScanLoop F)
      → (reload_rules resolver required now rules sl).1.running ≡ sl.running
  unfolding reload_rules
  reload_rules-running (err e) sl = refl
  reload_rules-running (ok rules) sl = ground arith

  reload_rules-cancelled :
      (rules : Result RuleError (List (Rule F))) (sl : ScanLoop F)
      → (reload_rules resolver required now' rules sl).1.cancelled ≡ sl.cancelled
  unfolding reload_rules
  reload_rules-cancelled (err e) sl = refl
  reload_rules-cancelled (ok rules) sl = ground arith

  -- A stop and then a start
  restarted :
      (sl : ScanLoop F) (rules : Result RuleError (List (Rule F)))
      → sl.running ≡ true
      → (start resolver required now' rules (stop sl)).1.cancelled ≡ true
  unfolding start stop
  restarted sl rules h =
      ground (arith, reload_rules-cancelled rules (record sl { running = true; cancelled = true }))

  started_running :
      (sl : ScanLoop F) (rules : Result RuleError (List (Rule F)))
      → sl.running ≡ false
      → (start resolver required now rules sl).1.running ≡ true
  unfolding start
  started_running sl rules h =
      ground (arith, reload_rules-running rules (record sl { running = true }))

  -- More calls of Start, each at a time and with what the store then gave
  pub start_all : List (ℕ × Result RuleError (List (Rule F))) → ScanLoop F → ScanLoop F
  start_all [] sl = sl
  start_all ((time, rules) ∷ rest) sl = start_all rest (start resolver required time rules sl).1

  unchanged :
      (time : ℕ) (rules : Result RuleError (List (Rule F))) (sl : ScanLoop F)
      → sl.running ≡ true
      → (start resolver required time rules sl).1 ≡ sl
  unfolding start
  unchanged time rules sl h = ground arith

  start_all-running :
      (attempts : List (ℕ × Result RuleError (List (Rule F)))) (sl : ScanLoop F)
      → sl.running ≡ true
      → start_all attempts sl ≡ sl
  unfolding start_all
  start_all-running [] sl h = refl
  start_all-running ((time, rules) ∷ rest) sl h =
      ap (start_all rest) (unchanged time rules sl h) ∙ start_all-running rest sl h

  refused :
      (rules : Result RuleError (List (Rule F))) (sl : ScanLoop F)
      → sl.running ≡ true
      → (start resolver required now' rules sl).0 ≡ err already_running
  unfolding start
  refused rules sl h = rw (h) refl

  -- A loop that is not running is marked as running by a start, also by one that fails because the
  -- rules cannot be loaded. From then on, until it is stopped, any number of starts change
  -- nothing, rules included, and the next one fails. A stop clears the mark, and after it a start
  -- leaves the loop with a context that is cancelled.
  pub start-start :
      (sl : ScanLoop F) (rules rules' : Result RuleError (List (Rule F)))
      (attempts : List (ℕ × Result RuleError (List (Rule F))))
      → sl.running ≡ false
      → let started = start resolver required now rules sl in
        let later = start_all attempts started.1 in
        (started.1.running ≡ true)
        × (later ≡ started.1)
        × ((start resolver required now' rules' later).0 ≡ err already_running)
        × ((stop later).running ≡ false)
        × ((start resolver required now' rules' (stop later)).1.cancelled ≡ true)
  start-start sl rules rules' attempts h =
      let marked = started_running sl rules h in
      let first = (start resolver required now rules sl).1 in
      let same = start_all-running attempts first marked in
      let still : (start_all attempts first).running ≡ true = ap (λ x. x.running) same ∙ marked in
      (
        marked,
        same,
        refused rules' (start_all attempts first) still,
        stopped (start_all attempts first) still,
        restarted (start_all attempts first) rules' still,
      )
