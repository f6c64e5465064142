-- ===== src/Tests/Gateways.antt =====
-- The gateway and the alert pipeline, on concrete values.
use stock_scanner.Prelude.{
  ℕ, ◌≡◌, refl, arith, String, Bool, true, false, not, ◌&&◌, ok, err, some, str_eq, List, [], ◌∷◌,
  map, drop, is_empty, if◌then◌else◌,
}
use stock_scanner.Models.Alert.{Alert}
use stock_scanner.Gateway.Registry.{Handle, get_all, new_connection_registry, add}
use stock_scanner.Dict.{lookup, insert}
use stock_scanner.Gateway.Registry.Indexes.{
  Change, added, removed, apply, apply_all, AllFresh, IsIndexed, apply_all-IsIndexed,
}
use stock_scanner.Gateway.Connection.{
  Connection, ClientMessage, panicked, sent, new_connection, is_subscribed, subscribe, close,
  send_alert,
}
use stock_scanner.Gateway.Hub.{Hub, broadcast_alert}
use stock_scanner.Gateway.Hub.Broadcast.{listed, delivered, broadcast_alert-delivered}
use stock_scanner.Alerts.{Faults, Pipeline, routing_failed, redis_key, process_alert}
use stock_scanner.Alerts.Retries.{seen, process_alert_effect, process_alert-retry}
use stock_scanner.Gateway.Connection.Subscriptions.{handle_all, after_all, handle_all-is_subscribed}
use stock_scanner.Gateway.Connection.Closing.{send_alert-close}

abbrev handle : String → String → Handle
handle id user_id = record { id = id; user_id = user_id }

abbrev changes : List Change
changes = added (handle "c1" "ann") ∷ added (handle "c2" "ann") ∷ removed "c1" ∷ []

changes_fresh : AllFresh new_connection_registry changes
unfolding new_connection_registry apply add lookup insert
changes_fresh = (refl, (refl, (tt, tt)))

apply_all-IsIndexed_example : IsIndexed (apply_all new_connection_registry changes)
apply_all-IsIndexed_example = apply_all-IsIndexed changes changes_fresh

abbrev message : String → String → ClientMessage
message kind symbol = record { kind = kind; symbol = symbol; symbols = [] }

abbrev messages : List (ClientMessage × Bool)
messages =
    (message "subscribe" "AAPL", true)
    ∷ (message "ping" "", true)
    ∷ (message "unsubscribe" "MSFT", false)
    ∷ []

handle_all-is_subscribed_example :
    is_subscribed (handle_all (new_connection {F = ℕ} "c1" "ann" 5 6) messages) "AAPL"
    ≡ after_all "AAPL" (map (λ m. m.0) messages) false
handle_all-is_subscribed_example = handle_all-is_subscribed ℕ "c1" "ann" 5 6 messages "AAPL"

abbrev alert : Alert ℕ
alert = record {
  id = "a1";
  rule_id = "r1";
  rule_name = "strong";
  symbol = "AAPL";
  timestamp = 63000000000000000000;
  price = 1500000;
  message = "";
  metrics = [];
  trace_id = "t1";
}

abbrev fresh : Connection ℕ
fresh = new_connection "c1" "ann" 5 6

send_alert-close_example :
    ((close fresh).open_channel ≡ not (is_empty fresh.send))
    × ((close fresh).send ≡ drop 1 fresh.send)
    × ((send_alert (λ a. true) (close fresh) alert true).0
        ≡ (if is_empty fresh.send then panicked else sent))
unfolding new_connection
send_alert-close_example = send_alert-close (λ a. true) fresh alert refl refl refl (omega arith)

abbrev hub : Hub ℕ
hub = record {
  registry = record {
    connections = ("c1", handle "c1" "ann") ∷ ("c2", handle "c2" "bob") ∷ [];
    by_user =
        ("ann", ("c1", handle "c1" "ann") ∷ []) ∷ ("bob", ("c2", handle "c2" "bob") ∷ []) ∷ [];
  };
  heap = ("c1", fresh) ∷ ("c2", subscribe (new_connection "c2" "bob" 5 6) "MSFT") ∷ [];
  stats = record {
    connections_total = 2;
    connections_active = 2;
    alerts_received = 0;
    alerts_broadcast = 0;
    alerts_dropped = 0;
    messages_sent = 0;
    last_alert_time = 0;
  };
  crashed = false;
}

broadcast_alert-delivered_example :
    (lookup "c2" (broadcast_alert (λ a. true) (λ id. true) hub alert).heap ≡ (
      if listed "c2" (get_all hub.registry)
      then delivered alert (lookup "c2" hub.heap)
      else lookup "c2" hub.heap))
    × ((broadcast_alert (λ a. true) (λ id. true) hub alert).crashed ≡ false)
unfolding get_all lookup new_connection subscribe
broadcast_alert-delivered_example =
    broadcast_alert-delivered (λ a. true) (λ id. true) alert refl hub "c2" refl
      ((refl, tt), (tt, tt)) ((refl, refl, omega arith), ((refl, refl, omega arith), tt))

abbrev working : Faults
working = record { exists_fails = false; set_fails = false; route_fails = false }

abbrev unrouted : Faults
unrouted = record { exists_fails = false; set_fails = false; route_fails = true }

abbrev pipeline : Pipeline ℕ
pipeline = record {
  keys = [];
  routed = [];
  alerts_deduplicated = 0;
  alerts_filtered = 0;
  alerts_routed = 0;
}

process_alert_effect_example :
    ((process_alert 3600 5 working alert pipeline).1.routed ≡ (
      if not false && not (seen 3600 5 working alert pipeline) && not false
      then alert ∷ []
      else []))
    × (lookup "k" (process_alert 3600 5 working alert pipeline).1.keys ≡ (
        if not false
          && not (seen 3600 5 working alert pipeline)
          && not false
          && str_eq (redis_key alert) "k"
        then some 3605
        else lookup "k" pipeline.keys))
process_alert_effect_example = process_alert_effect 3600 5 working alert pipeline "k"

process_alert-retry_example :
    let first = process_alert 3600 5 unrouted alert pipeline in
    let second = process_alert 3600 100 working alert first.1 in
    (first.0 ≡ err routing_failed) × (second.0 ≡ ok true) × (second.1.routed ≡ [])
unfolding lookup
process_alert-retry_example =
    process_alert-retry 3600 5 unrouted alert pipeline 100 working refl refl refl refl (omega arith)
      refl
