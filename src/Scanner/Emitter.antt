-- ===== src/Scanner/Emitter.antt =====
-- internal/scanner/alert_emitter.go: AlertEmitterImpl. The clock, the generator of UUIDs and the
-- Redis stream are the environment: the readings, the UUIDs made and the messages published are
-- counted and kept in `World`, newest message first.
use stock_scanner.Prelude.{
  ℕ, suc, String, Bool, Option, none, some, List, ◌∷◌, str_eq, if◌then◌else◌, ◌==◌, Result, ok, err,
}
use stock_scanner.Int64.{add}
use stock_scanner.Models.Market.{ModelError}
use stock_scanner.Models.Alert.{Alert, validate_alert}

pub record World (F : Type 0) : Type 0 where
  pub reads : ℕ
  pub uuids : ℕ
  pub stream : List (Alert F)

-- The n-th reading of the clock, the n-th UUID, and whether the stream takes a message after the
-- messages that it has.
pub record Env (F : Type 0) : Type 0 where
  pub clock : ℕ → ℕ
  pub uuid : ℕ → String
  pub accepts : List (Alert F) → Alert F → Bool

pub record Emitter : Type 0 where
  pub stream_name : String
  pub alerts_emitted : ℕ
  pub alerts_published : ℕ
  pub alerts_failed : ℕ
  pub last_alert_time : ℕ

pub data EmitError : Type 0 where
  nil_alert publish_failed : EmitError
  invalid_alert : ModelError → EmitError

unfoldable pub new_alert_emitter : String → Emitter
new_alert_emitter stream_name = record {
  stream_name = stream_name;
  alerts_emitted = 0;
  alerts_published = 0;
  alerts_failed = 0;
  last_alert_time = 0;
}

unfoldable pub increment_emitted : ℕ → Emitter → Emitter
increment_emitted now ae = record ae {
  alerts_emitted = add ae.alerts_emitted 1;
  alerts_published = add ae.alerts_published 1;
  last_alert_time = now;
}

unfoldable pub increment_failed : Emitter → Emitter
increment_failed ae = record ae { alerts_failed = add ae.alerts_failed 1 }

module _ {F : Type 0} (env : Env F) where
  abbrev pub now : World F → ℕ
  now w = env.clock w.reads

  -- The fields that EmitAlert sets where they are empty
  unfoldable pub fill_id : Alert F × World F → Alert F × World F
  fill_id (a, w) =
      if str_eq a.id ""
      then (record a { id = env.uuid w.uuids }, record w { uuids = suc w.uuids })
      else (a, w)

  unfoldable pub fill_timestamp : Alert F × World F → Alert F × World F
  fill_timestamp (a, w) =
      if a.timestamp == 0
      then (record a { timestamp = now w }, record w { reads = suc w.reads })
      else (a, w)

  unfoldable pub fill_trace_id : Alert F × World F → Alert F × World F
  fill_trace_id (a, w) =
      if str_eq a.trace_id ""
      then (record a { trace_id = env.uuid w.uuids }, record w { uuids = suc w.uuids })
      else (a, w)

  -- incrementEmitted at the end of EmitAlert
  abbrev emitted : Emitter → World F → Result EmitError (Unit {0}) × Emitter × World F
  emitted ae w = (ok tt, increment_emitted (now w) ae, record w { reads = suc w.reads })

  unfoldable pub publish_alert :
      Emitter → Alert F → World F → Result EmitError (Unit {0}) × Emitter × World F
  unfolding increment_emitted increment_failed
  publish_alert ae a w =
      if str_eq ae.stream_name ""
      then emitted ae w
      else if env.accepts w.stream a
      then emitted ae (record w { stream = a ∷ w.stream })
      else (err publish_failed, increment_failed ae, w)

  unfoldable pub emit_alert :
      Emitter → Option (Alert F) → World F → Result EmitError (Unit {0}) × Emitter × World F
  unfolding fill_id fill_timestamp fill_trace_id publish_alert
  emit_alert ae none w = (err nil_alert, ae, w)
  emit_alert ae (some alert) w =
      let (a, w') = fill_trace_id (fill_timestamp (fill_id (alert, w))) in
      elim (validate_alert a) [
        | err e ↦ (err (invalid_alert e), ae, w')
        | ok _ ↦ publish_alert ae a w'
      ]
