-- ===== src/Scanner/ScanLoop/Effects.antt =====
-- What one rule of a cycle does to the stream of alerts, the cooldowns and the clock.
use stock_scanner.Prelude.{
  ℕ, zero, suc, ◌≤◌, ◌≡◌, refl, subst, String, Bool, true, false, Option, none, some, ◌∷◌, inl, inr,
  str_eq, Result, ok, err, arith, Bool-cases, if◌then◌else◌, ◌==◌,
}
use stock_scanner.Float.{Float}
use stock_scanner.Int64.{add}
use stock_scanner.Dict.{Dict, get_or}
use stock_scanner.Models.Rule.{Rule}
use stock_scanner.Models.Market.{ModelError}
use stock_scanner.Models.Alert.{Alert, validate_alert}
use stock_scanner.Rules.Error.{RuleError}
use stock_scanner.Rules.Compiler.{CompiledRule}
use stock_scanner.Scanner.Cooldown.{Tracker, key, unnamed, is_on_cooldown, record_cooldown}
use stock_scanner.Scanner.Snapshot.{SymbolStateSnapshot}
use stock_scanner.Scanner.Emitter.{
  World, Env, Emitter, EmitError, publish_failed, invalid_alert, now, fill_id, fill_timestamp,
  fill_trace_id, publish_alert, emit_alert,
}
use stock_scanner.Scanner.ScanLoop.{
  Totals, Cycle, session_name, should_evaluate_rule, create_alert, record_fired, emit, emit_if_set,
  cooling, match_rule, try_rule, scan_rule,
}

-- Readings of the clock do not go back.
abbrev pub IsClock : {F : Type 0} → Env F → Type 0
IsClock env = (i : ℕ) → env.clock i ≤ env.clock (suc i)

pub clock_mono :
    {F : Type 0} (env : Env F) → IsClock env → (i j : ℕ) → i ≤ j → env.clock i ≤ env.clock j
clock_mono env mono i zero h = ground arith
clock_mono env mono i (suc j) h = elim (Bool-cases (i == suc j)) [
  | inl e ↦ ground arith
  | inr e ↦ ground (arith, clock_mono env mono i j, mono j)
]

-- When the cooldown of a rule and a symbol ends; 0 where there is none.
abbrev pub until : Option Tracker → String → String → ℕ
until none r s = 0
until (some ct) r s = get_or 0 (key r s) ct.cooldowns

abbrev pub marked : Option Tracker → ℕ → String → String → Option Tracker
marked none now r s = none
marked (some ct) now r s = some (record_cooldown ct now r s 0)

module _ {F : Type 0} (env : Env F) where
  -- The outcomes of an emission
  pub data Sent (alert : Alert F) (w w' : World F) (r : Result EmitError (Unit {0})) : Type 0 where
    refused :
        (e : EmitError) → r ≡ err e → w'.stream ≡ w.stream → w.reads ≤ w'.reads → Sent alert w w' r
    unpublished :
        r ≡ ok tt
        → w'.stream ≡ w.stream
        → w.reads ≤ w'.reads
        → unnamed alert.rule_id alert.symbol ≡ false
        → Sent alert w w' r
    published :
        (a : Alert F)
        → r ≡ ok tt
        → w'.stream ≡ a ∷ w.stream
        → w.reads ≤ w'.reads
        → unnamed alert.rule_id alert.symbol ≡ false
        → a.rule_id ≡ alert.rule_id
        → a.symbol ≡ alert.symbol
        → alert.timestamp ≤ a.timestamp
        → a.timestamp ≤ now env w
        → Sent alert w w' r

  -- A filled alert is the given one but for the fields that were empty.
  record Fills (a : Alert F) (w : World F) (a' : Alert F) (w' : World F) : Type 0 where
    same_rule : a'.rule_id ≡ a.rule_id
    same_symbol : a'.symbol ≡ a.symbol
    not_before : a.timestamp ≤ a'.timestamp
    not_after : a'.timestamp ≤ now env w
    same_stream : w'.stream ≡ w.stream
    reads_grow : w.reads ≤ w'.reads

  filled :
      (a : Alert F) (w : World F)
      → a.timestamp ≤ now env w
      → Fills a w
          (fill_trace_id env (fill_timestamp env (fill_id env (a, w)))).0
          (fill_trace_id env (fill_timestamp env (fill_id env (a, w)))).1
  unfolding fill_trace_id fill_timestamp fill_id
  filled a w h = ground arith

  valid_named :
      (a : Alert F) (u : Unit {0}) → validate_alert a ≡ ok u → unnamed a.rule_id a.symbol ≡ false
  unfolding validate_alert
  valid_named a u h = ground arith

  publish_alert-Sent :
      (ae : Emitter) (alert a : Alert F) (w w' : World F)
      → Fills alert w a w'
      → unnamed a.rule_id a.symbol ≡ false
      → Sent alert w (publish_alert env ae a w').2 (publish_alert env ae a w').0
  unfolding publish_alert
  publish_alert-Sent ae alert a w w' f n = elim (Bool-cases (str_eq ae.stream_name "")) [
    | inl unset ↦ unpublished (ground arith) (ground arith) (ground arith) (ground arith)
    | inr set ↦ elim (Bool-cases (env.accepts w'.stream a)) [
      | inl taken ↦
          published a (ground arith) (ground arith) (ground arith) (ground arith) (ground arith)
            (ground arith) (ground arith) (ground arith)
      | inr lost ↦ refused publish_failed (ground arith) (ground arith) (ground arith)
    ]
  ]

  emit_valid :
      (ae : Emitter) (alert a : Alert F) (w w' : World F)
      → Fills alert w a w'
      → (v : Result ModelError (Unit {0})) → validate_alert a ≡ v
      → (let res : Result EmitError (Unit {0}) × Emitter × World F = elim v [
        | err e ↦ (err (invalid_alert e), ae, w')
        | ok _ ↦ publish_alert env ae a w'
      ] in
          Sent alert w res.2 res.0)
  emit_valid ae alert a w w' f (err e) h = refused (invalid_alert e) refl f.same_stream f.reads_grow
  emit_valid ae alert a w w' f (ok u) h = publish_alert-Sent ae alert a w w' f (valid_named a u h)

  pub emit_alert-Sent :
      (ae : Emitter) (alert : Alert F) (w : World F)
      → alert.timestamp ≤ now env w
      → Sent alert w (emit_alert env ae (some alert) w).2 (emit_alert env ae (some alert) w).0
  unfolding emit_alert
  emit_alert-Sent ae alert w h =
      let p = fill_trace_id env (fill_timestamp env (fill_id env (alert, w))) in
      emit_valid ae alert p.0 w p.1 (filled alert w h) (validate_alert p.0) refl

  -- The outcomes for a cycle of one rule. `marked` is a cooldown that starts at a reading.
  pub data Effect (c c' : Cycle F) : Type 0 where
    quiet :
        c'.world.stream ≡ c.world.stream
        → c'.tracker ≡ c.tracker
        → c.world.reads ≤ c'.world.reads
        → Effect c c'
    cooled :
        (r s : String) (i : ℕ)
        → c'.world.stream ≡ c.world.stream
        → unnamed r s ≡ false
        → c.world.reads ≤ i
        → i ≤ c'.world.reads
        → c'.tracker ≡ marked c.tracker (env.clock i) r s
        → Effect c c'
    fired :
        (a : Alert F) (i : ℕ)
        → c'.world.stream ≡ a ∷ c.world.stream
        → unnamed a.rule_id a.symbol ≡ false
        → c.world.reads ≤ i
        → i ≤ c'.world.reads
        → c'.tracker ≡ marked c.tracker (env.clock i) a.rule_id a.symbol
        → until c.tracker a.rule_id a.symbol ≤ a.timestamp
        → env.clock c.world.reads ≤ a.timestamp
        → a.timestamp ≤ env.clock i
        → Effect c c'

-- The totals of the cycle do not matter.
recount :
    {F : Type 0} {env : Env F} {c c' : Cycle F} {t : Totals}
    → Effect env (record c { totals = t }) c'
    → Effect env c c'
recount (quiet a b d) = quiet a b d
recount (cooled r s i a b d e g) = cooled r s i a b d e g
recount (fired x i a b d e g h j k) = fired x i a b d e g h j k

module _ {F : Type 0} ⦃fl : Float F⦄ (env : Env F) where
  record_fired_lem :
      (r s : String) (o : Option Tracker) (w : World F)
      → ((record_fired env r s o w).0 ≡ marked o (now env w) r s)
        × ((record_fired env r s o w).1.stream ≡ w.stream)
        × (w.reads ≤ (record_fired env r s o w).1.reads)
  unfolding record_fired
  record_fired_lem r s none w = ground arith
  record_fired_lem r s (some ct) w = ground arith

  -- The cooldown of the pair was over, or unset, when the alert was made.
  abbrev IsFree : Option Tracker → Alert F → Type 0
  IsFree o alert =
      unnamed alert.rule_id alert.symbol ≡ false
      → until o alert.rule_id alert.symbol ≤ alert.timestamp

  emit-Effect :
      (alert : Alert F) (ae : Emitter) (c : Cycle F)
      → (start : ℕ) → start ≤ c.world.reads
      → env.clock start ≤ alert.timestamp
      → alert.timestamp ≤ now env c.world
      → IsFree c.tracker alert
      → (c0 : Cycle F) → c0.world.reads ≡ start
      → c0.world.stream ≡ c.world.stream
      → c0.tracker ≡ c.tracker
      → IsClock env
      → Effect env c0 (emit env alert.rule_id alert ae c)
  unfolding emit
  emit-Effect alert ae c start b lo hi free c0 e0 e1 e2 mono =
      go (emit_alert-Sent env ae alert c.world hi)
    where
      go :
          Sent env alert c.world
            (emit_alert env ae (some alert) c.world).2
            (emit_alert env ae (some alert) c.world).0
          → Effect env c0 (emit env alert.rule_id alert ae c)
      go (Sent.refused e r st g) = quiet (ground arith) (ground arith) (ground arith)
      go (unpublished r st g n) =
          let f =
            record_fired_lem alert.rule_id alert.symbol c.tracker
              (emit_alert env ae (some alert) c.world).2 in
          cooled alert.rule_id alert.symbol (emit_alert env ae (some alert) c.world).2.reads
            (ground (arith, f)) n (ground arith) (ground (arith, f)) (ground (arith, f))
      go (published a r st g n sr ss l u) =
          let f =
            record_fired_lem alert.rule_id alert.symbol c.tracker
              (emit_alert env ae (some alert) c.world).2 in
          let i = (emit_alert env ae (some alert) c.world).2.reads in
          fired a i (ground (arith, f)) (ground arith) (ground arith) (ground (arith, f))
            (ground (arith, f)) (ground arith) (ground arith)
            (ground (arith, clock_mono env mono c.world.reads i))

  cooling-until :
      (o : Option Tracker) (w : World F) (r s : String)
      → unnamed r s ≡ false
      → cooling env r s o w ≡ false
      → until o r s ≤ now env w
  unfolding is_on_cooldown get_or
  cooling-until none w r s n h = ground arith
  cooling-until (some ct) w r s n h = ground arith

  -- The cycle after a match: the match is counted and the cooldown was checked.
  abbrev checked : Cycle F → Totals → Cycle F
  checked c totals = record c {
    totals = totals;
    world = record c.world { reads = suc c.world.reads };
  }

  emit_if_set-Effect :
      (id : String) (r : Rule F) (m : Dict F) (snap : SymbolStateSnapshot F) (o : Option Emitter)
      (c : Cycle F) (totals : Totals)
      → IsClock env
      → r.id ≡ id
      → cooling env id snap.symbol c.tracker c.world ≡ false
      → Effect env c (emit_if_set env id r m snap o (checked c totals))
  unfolding emit_if_set
  emit_if_set-Effect id r m snap none c totals mono own free = quiet refl refl (omega arith)
  emit_if_set-Effect id r m snap (some ae) c totals mono own free =
      let k = c.world.reads in
      let made = create_alert env r m snap (checked c totals).world in
      let later = clock_mono env mono k (suc (suc k)) (omega arith) in
      subst
        (λ (j : String).
          Effect env c (emit env j made.0 ae (record (checked c totals) { world = made.1 })))
        own
        (emit-Effect made.0 ae (record (checked c totals) { world = made.1 }) k (omega arith) later
          (mono (suc (suc k)))
          (λ n.
            ground (arith, cooling-until c.tracker c.world r.id snap.symbol n, later, own, free))
          c refl refl refl mono)

  match_rule-Effect :
      (id : String) (r : Rule F) (m : Dict F) (snap : SymbolStateSnapshot F) (c : Cycle F)
      → IsClock env
      → r.id ≡ id
      → Effect env c (match_rule env id r m snap c)
  unfolding match_rule
  match_rule-Effect id r m snap c mono own =
      elim (Bool-cases (cooling env id snap.symbol c.tracker c.world)) [
        | inl e ↦ quiet (ground arith) (ground arith) (ground arith)
        | inr e ↦ rw e (emit_if_set-Effect id r m snap c.emitter c _ mono own e)
      ]

  try_rule-Effect :
      (id : String) (f : CompiledRule F) (r : Rule F) (m : Dict F) (snap : SymbolStateSnapshot F)
      (c : Cycle F)
      → IsClock env
      → r.id ≡ id
      → Effect env c (try_rule env id f r m snap c)
  unfolding try_rule
  try_rule-Effect id f r m snap c mono own =
      elim (Bool-cases (should_evaluate_rule r m (session_name snap.current_session))) [
        | inl pass ↦ rw pass (outcome (f snap.symbol m) (match_rule-Effect id r m snap c mono own))
        | inr fail ↦ rw fail (quiet refl refl (omega arith))
      ]
    where
      outcome :
          {c' : Cycle F} (res : Result RuleError Bool)
          → Effect env c c'
          → Effect env c (elim res [ err _ ↦ c | ok matched ↦ if matched then c' else c ])
      outcome (ok true) e = e
      outcome (ok false) e = quiet refl refl (omega arith)
      outcome (err x) e = quiet refl refl (omega arith)

  -- What the store gives under an ID has that ID.
  abbrev pub IsKeyed : (String → Result RuleError (Rule F)) → Type 0
  IsKeyed rule_of = (id : String) (r : Rule F) → rule_of id ≡ ok r → r.id ≡ id

  pub scan_rule-Effect :
      (rule_of : String → Result RuleError (Rule F)) (m : Dict F) (snap : SymbolStateSnapshot F)
      (id : String) (f : CompiledRule F) (c : Cycle F)
      → IsClock env
      → IsKeyed rule_of
      → Effect env c (scan_rule env rule_of m snap id f c)
  unfolding scan_rule
  scan_rule-Effect rule_of m snap id f c mono keyed = go (rule_of id) refl
    where
      counted : Cycle F
      counted = record c {
        totals = record c.totals { rules_evaluated = add c.totals.rules_evaluated 1 };
      }

      go :
          (res : Result RuleError (Rule F))
          → rule_of id ≡ res
          → Effect env c (elim res [ err _ ↦ counted | ok r ↦ try_rule env id f r m snap counted ])
      go (err x) e = quiet refl refl (omega arith)
      go (ok r) e = recount (try_rule-Effect id f r m snap counted mono (keyed id r e))
