-- ===== src/Gateway/Connection.antt =====
-- internal/wsgateway/connection.go and protocol.go: the state of a connection. `send` is the
-- buffered channel's queue, oldest message first; `open_channel` and `cancelled` say whether the
-- channel is not closed and whether the context is done. Where several cases of a `select` are
-- ready Go takes any: `pick` is that choice. Writes to the websocket itself are replies.
pub mod Subscriptions
pub mod Closing
use stock_scanner.Prelude.{
  ℕ, ◌+◌, String, Bool, true, false, not, ◌&&◌, ◌||◌, Option, none, some, List, [], ◌∷◌, ◌++◌,
  str_eq, ltb, if◌then◌else◌, is_empty, length,
}
use stock_scanner.Dict.{Dict, insert, remove, get_or}
use stock_scanner.Models.Alert.{Alert}

pub data Message (F : Type 0) : Type 0 where
  alert_message : Alert F → Message F
  error_message : String → Message F

pub record Connection (F : Type 0) : Type 0 where
  pub id : String
  pub user_id : String
  pub send : List (Message F)
  pub open_channel : Bool
  pub subscriptions : Dict Bool
  pub toplist_subscriptions : Dict Bool
  pub cancelled : Bool
  pub last_pong : ℕ
  pub created_at : ℕ
  pub closed : Bool

-- The channel's buffer
abbrev pub capacity : ℕ
capacity = 256

unfoldable pub new_connection : {F : Type 0} → String → String → ℕ → ℕ → Connection F
new_connection id user_id now now' = record {
  id = id;
  user_id = user_id;
  send = [];
  open_channel = true;
  subscriptions = [];
  toplist_subscriptions = [];
  cancelled = false;
  last_pong = now';
  created_at = now;
  closed = false;
}

-- How a send ends. A send on a closed channel panics.
pub data Outcome : Type 0 where
  sent dropped marshal_failed context_done panicked : Outcome

pub data Reply : Type 0 where
  success : String → List String → Reply
  failure : String → Outcome → Reply
  pong : Reply

pub record ClientMessage : Type 0 where
  pub kind : String
  pub symbol : String
  pub symbols : List String

-- The symbols of a message: the one, or else the list
abbrev pub requested : ClientMessage → List String
requested msg = if str_eq msg.symbol "" then msg.symbols else msg.symbol ∷ []

module _ {F : Type 0} where
  unfoldable pub subscribe : Connection F → String → Connection F
  subscribe c symbol = record c { subscriptions = insert symbol true c.subscriptions }

  unfoldable pub unsubscribe : Connection F → String → Connection F
  unsubscribe c symbol = record c { subscriptions = remove symbol c.subscriptions }

  unfoldable pub is_subscribed : Connection F → String → Bool
  unfolding get_or
  is_subscribed c symbol = get_or false symbol c.subscriptions

  unfoldable pub should_receive_alert : Connection F → Alert F → Bool
  unfolding get_or
  should_receive_alert c alert =
      if is_empty c.subscriptions then true else get_or false alert.symbol c.subscriptions

  unfoldable pub subscribe_toplist : Connection F → String → Connection F
  subscribe_toplist c id = record c {
    toplist_subscriptions = insert id true c.toplist_subscriptions;
  }

  unfoldable pub unsubscribe_toplist : Connection F → String → Connection F
  unsubscribe_toplist c id = record c { toplist_subscriptions = remove id c.toplist_subscriptions }

  unfoldable pub is_subscribed_to_toplist : Connection F → String → Bool
  unfolding get_or
  is_subscribed_to_toplist c id = get_or false id c.toplist_subscriptions

  unfoldable pub update_last_pong : Connection F → ℕ → Connection F
  update_last_pong c now = record c { last_pong = now }

  -- The select on the channel: a receive takes a waiting message, and on a closed channel it is
  -- ready at once; else the channel is closed.
  unfoldable pub close_channel : Connection F → List (Message F) → Connection F
  close_channel c [] = if c.open_channel then record c { open_channel = false } else c
  close_channel c (message ∷ rest) = record c { send = rest }

  unfoldable pub close : Connection F → Connection F
  unfolding close_channel
  close c =
      if c.closed then c else close_channel (record c { closed = true; cancelled = true }) c.send

  unfoldable pub enqueue : Connection F → Message F → Connection F
  enqueue c message = record c { send = c.send ++ message ∷ [] }

  -- The select of SendAlert and of SendError: `blocked` is what its last case gives, after the
  -- timeout of the one and at once in the other.
  unfoldable pub select_send : Connection F → Message F → Bool → Outcome × Connection F
  unfolding enqueue
  select_send c message pick =
      if not c.open_channel
      then (if pick || not c.cancelled then (panicked, c) else (context_done, c))
      else if ltb (length c.send) capacity && (pick || not c.cancelled)
      then (sent, enqueue c message)
      else if c.cancelled
      then (context_done, c)
      else (dropped, c)

  -- `encodes` says whether json.Marshal takes the alert.
  unfoldable pub send_alert :
      (Alert F → Bool) → Connection F → Alert F → Bool → Outcome × Connection F
  unfolding select_send
  send_alert encodes c alert pick =
      if encodes alert then select_send c (alert_message alert) pick else (marshal_failed, c)

  unfoldable pub send_error : Connection F → String → Bool → Reply × Connection F
  unfolding select_send
  send_error c code pick =
      let (outcome, c') = select_send c (error_message code) pick in (failure code outcome, c')

  unfoldable pub subscribe_all : Connection F → List String → Connection F
  unfolding subscribe
  subscribe_all c [] = c
  subscribe_all c (symbol ∷ symbols) = subscribe_all (subscribe c symbol) symbols

  unfoldable pub unsubscribe_all : Connection F → List String → Connection F
  unfolding unsubscribe
  unsubscribe_all c [] = c
  unsubscribe_all c (symbol ∷ symbols) = unsubscribe_all (unsubscribe c symbol) symbols

  unfoldable pub handle_client_message : Connection F → ClientMessage → Bool → Reply × Connection F
  unfolding subscribe_all unsubscribe_all subscribe_toplist unsubscribe_toplist send_error
  handle_client_message c msg pick =
      if str_eq msg.kind "subscribe"
      then (if is_empty (requested msg)
          then send_error c "invalid_request" pick
          else (success "subscribed" (requested msg), subscribe_all c (requested msg)))
      else if str_eq msg.kind "unsubscribe"
      then (if is_empty (requested msg)
          then send_error c "invalid_request" pick
          else (success "unsubscribed" (requested msg), unsubscribe_all c (requested msg)))
      else if str_eq msg.kind "subscribe_toplist"
      then (if str_eq msg.symbol ""
          then send_error c "invalid_request" pick
          else (success "subscribed_toplist" (msg.symbol ∷ []), subscribe_toplist c msg.symbol))
      else if str_eq msg.kind "unsubscribe_toplist"
      then (if str_eq msg.symbol ""
          then send_error c "invalid_request" pick
          else (success "unsubscribed_toplist" (msg.symbol ∷ []), unsubscribe_toplist c msg.symbol))
      else if str_eq msg.kind "ping"
      then (pong, c)
      else send_error c "unknown_message_type" pick
