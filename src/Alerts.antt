-- ===== src/Alerts.antt =====
-- internal/alert: deduplicator.go, filter.go, router.go and the processing of one alert in
-- consumer.go. Redis is the environment: `keys` holds the deduplication keys with the times at which
-- they expire, `routed` the messages of the filtered stream, newest first, and `Faults` says which
-- calls fail. The persister takes the alert without a result that matters here.
pub mod Retries
use stock_scanner.Prelude.{
  ℕ, ◌+◌, ◌-◌, ◌*◌, ◌/◌, String, Bool, true, false, not, ◌&&◌, Option, none, some, List, [], ◌∷◌,
  str_append, decimal_text, ltb, leb, if◌then◌else◌, Result, ok, err,
}
use stock_scanner.Int64.{add}
use stock_scanner.Dict.{Dict, lookup, insert}
use stock_scanner.Models.Alert.{Alert}

pub record Faults : Type 0 where
  pub exists_fails : Bool
  pub set_fails : Bool
  pub route_fails : Bool

pub record Pipeline (F : Type 0) : Type 0 where
  pub keys : Dict ℕ
  pub routed : List (Alert F)
  pub alerts_deduplicated : ℕ
  pub alerts_filtered : ℕ
  pub alerts_routed : ℕ

pub data PipelineError : Type 0 where
  deduplication_failed filtering_failed routing_failed : PipelineError

-- Seconds from Go's zero time to 1970
abbrev epoch_seconds : ℕ
epoch_seconds = 62135596800

-- fmt's %d of the Unix time of a time truncated to its second
unfoldable pub unix_text : ℕ → String
unix_text t =
    let s = t / 1000000000 in
    if leb epoch_seconds s
    then decimal_text (s - epoch_seconds)
    else str_append "-" (decimal_text (epoch_seconds - s))

abbrev live : ℕ → Option ℕ → Bool
live now none = false
live now (some expiry) = ltb now expiry

module _ {F : Type 0} where
  unfoldable pub generate_idempotency_key : Alert F → String
  generate_idempotency_key a =
      str_append a.rule_id
        (str_append ":" (str_append a.symbol (str_append ":" (unix_text a.timestamp))))

  unfoldable pub redis_key : Alert F → String
  redis_key a = str_append "alert:dedupe:" (generate_idempotency_key a)

  -- A Set that fails is logged only. The time to live is positive; with 0 the key would not expire.
  unfoldable pub is_duplicate :
      ℕ → ℕ → Faults → Alert F → Pipeline F → Result PipelineError Bool × Pipeline F
  is_duplicate ttl now faults a p =
      if faults.exists_fails
      then (err deduplication_failed, p)
      else if live now (lookup (redis_key a) p.keys)
      then (ok true, p)
      else (
        ok false,
        (if faults.set_fails
            then p
            else record p { keys = insert (redis_key a) (now + ttl) p.keys }),
      )

  -- All alerts pass.
  unfoldable pub filter_alert : Alert F → Result PipelineError Bool
  filter_alert a = ok true

  unfoldable pub filter_alerts : List (Alert F) → List (Alert F)
  unfolding filter_alert
  filter_alerts [] = []
  filter_alerts (a ∷ rest) =
      let later = filter_alerts rest in
      elim (filter_alert a) [ err _ ↦ later | ok pass ↦ if pass then a ∷ later else later ]

  unfoldable pub route_alert :
      Faults → Alert F → Pipeline F → Result PipelineError (Unit {0}) × Pipeline F
  route_alert faults a p =
      if faults.route_fails
      then (err routing_failed, p)
      else (ok tt, record p { routed = a ∷ p.routed })

  abbrev after_route :
      Result PipelineError (Unit {0}) × Pipeline F → Result PipelineError Bool × Pipeline F
  after_route (err e, p) = (err routing_failed, p)
  after_route (ok u, p) = (ok true, record p { alerts_routed = add p.alerts_routed 1 })

  abbrev after_filter :
      Faults
      → Alert F
      → Result PipelineError Bool
      → Pipeline F
      → Result PipelineError Bool × Pipeline F
  after_filter faults a (err e) p = (err filtering_failed, p)
  after_filter faults a (ok false) p =
      (ok true, record p { alerts_filtered = add p.alerts_filtered 1 })
  after_filter faults a (ok true) p = after_route (route_alert faults a p)

  abbrev after_dedup :
      Faults
      → Alert F
      → Result PipelineError Bool × Pipeline F
      → Result PipelineError Bool × Pipeline F
  after_dedup faults a (err e, p) = (err deduplication_failed, p)
  after_dedup faults a (ok true, p) =
      (ok true, record p { alerts_deduplicated = add p.alerts_deduplicated 1 })
  after_dedup faults a (ok false, p) = after_filter faults a (filter_alert a) p

  -- processAlert: `ok true` means that the message is acknowledged.
  unfoldable pub process_alert :
      ℕ → ℕ → Faults → Alert F → Pipeline F → Result PipelineError Bool × Pipeline F
  unfolding is_duplicate filter_alert route_alert
  process_alert ttl now faults a p = after_dedup faults a (is_duplicate ttl now faults a p)
