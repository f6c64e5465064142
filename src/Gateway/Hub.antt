-- ===== src/Gateway/Hub.antt =====
-- internal/wsgateway/hub.go: the registration of connections, the broadcast of alerts and the
-- counters. The connections are objects that the registry and the goroutines share: `heap` holds
-- their states by ID. The pumps of a connection are calls of `unregister` and of the operations of
-- Connection.antt. A panic ends the process.
pub mod Broadcast
use stock_scanner.Prelude.{
  ℕ, ◌+◌, ◌-◌, String, Bool, true, false, Option, none, some, List, [], ◌∷◌, if◌then◌else◌,
}
use stock_scanner.Int64.{add, sub, is_nonpos}
use stock_scanner.Dict.{Dict, lookup, insert}
use stock_scanner.Models.Alert.{Alert}
use stock_scanner.Gateway.Registry as Registered
use stock_scanner.Gateway.Registry.{Handle, Registry, remove_connection, get_all}
use stock_scanner.Gateway.Connection.{
  Connection, Outcome, sent, dropped, marshal_failed, context_done, panicked, should_receive_alert,
  send_alert, close,
}

pub record HubStats : Type 0 where
  pub connections_total : ℕ
  pub connections_active : ℕ
  pub alerts_received : ℕ
  pub alerts_broadcast : ℕ
  pub alerts_dropped : ℕ
  pub messages_sent : ℕ
  pub last_alert_time : ℕ

pub record Hub (F : Type 0) : Type 0 where
  pub registry : Registry
  pub heap : Dict (Connection F)
  pub stats : HubStats
  pub crashed : Bool

unfoldable pub increment_connections : HubStats → HubStats
increment_connections s = record s {
  connections_total = add s.connections_total 1;
  connections_active = add s.connections_active 1;
}

unfoldable pub decrement_connections_active : HubStats → HubStats
decrement_connections_active s = record s {
  connections_active =
      if is_nonpos s.connections_active then s.connections_active else s.connections_active - 1;
}

module _ {F : Type 0} where
  abbrev pub handle_of : Connection F → Handle
  handle_of c = record { id = c.id; user_id = c.user_id }

  unfoldable pub register : Hub F → Connection F → Hub F
  unfolding increment_connections
  register h c = record h {
    registry = Registered.add h.registry (handle_of c);
    heap = insert c.id c h.heap;
    stats = increment_connections h.stats;
  }

  abbrev closed_in : Dict (Connection F) → String → Option (Connection F) → Dict (Connection F)
  closed_in heap id none = heap
  closed_in heap id (some c) = insert id (close c) heap

  unfoldable pub unregister : Hub F → String → Hub F
  unfolding decrement_connections_active
  unregister h id = record h {
    registry = remove_connection h.registry id;
    heap = closed_in h.heap id (lookup id h.heap);
    stats = decrement_connections_active h.stats;
  }

  -- What the loop of broadcastAlert does after a send. A message that is dropped after the timeout
  -- is no error there: it counts as sent.
  unfoldable pub count_outcome : Outcome → ℕ × Hub F → ℕ × Hub F
  count_outcome sent (n, h) =
      (n, record h { stats = record h.stats { messages_sent = add h.stats.messages_sent 1 } })
  count_outcome dropped (n, h) =
      (n, record h { stats = record h.stats { messages_sent = add h.stats.messages_sent 1 } })
  count_outcome marshal_failed (n, h) = (n + 1, h)
  count_outcome context_done (n, h) = (n + 1, h)
  count_outcome panicked (n, h) = (n, record h { crashed = true })

  unfoldable pub broadcast_to :
      (Alert F → Bool)
      → (String → Bool)
      → Alert F
      → String
      → Option (Connection F)
      → ℕ × Hub F
      → ℕ × Hub F
  unfolding count_outcome
  broadcast_to encodes pick alert id none (n, h) = (n, h)
  broadcast_to encodes pick alert id (some c) (n, h) =
      let (outcome, c') = send_alert encodes c alert (pick id) in
      if should_receive_alert c alert
      then count_outcome outcome (n, record h { heap = insert id c' h.heap })
      else (n, h)

  -- The loop over the connections, with the number of dropped messages
  unfoldable pub broadcast_all :
      (Alert F → Bool) → (String → Bool) → Alert F → List Handle → ℕ × Hub F → ℕ × Hub F
  unfolding broadcast_to
  broadcast_all encodes pick alert [] s = s
  broadcast_all encodes pick alert (k ∷ ks) (n, h) =
      let next = broadcast_to encodes pick alert k.id (lookup k.id h.heap) (n, h) in
      let rest = broadcast_all encodes pick alert ks next in if h.crashed then (n, h) else rest

  -- broadcastAlert; what follows a panic is not run.
  unfoldable pub broadcast_alert : (Alert F → Bool) → (String → Bool) → Hub F → Alert F → Hub F
  unfolding broadcast_all
  broadcast_alert encodes pick h alert =
      let (n, h') = broadcast_all encodes pick alert (get_all h.registry) (0, h) in
      if h'.crashed then h' else record h' {
        stats = record h'.stats {
          alerts_broadcast = add h'.stats.alerts_broadcast 1;
          alerts_dropped = add h'.stats.alerts_dropped n;
        };
      }

  -- An alert that was read from the stream
  unfoldable pub receive_alert : (Alert F → Bool) → (String → Bool) → Hub F → ℕ → Alert F → Hub F
  unfolding broadcast_alert
  receive_alert encodes pick h now alert =
      broadcast_alert encodes pick
        (record h {
          stats = record h.stats {
            alerts_received = add h.stats.alerts_received 1;
            last_alert_time = now;
          };
        })
        alert
