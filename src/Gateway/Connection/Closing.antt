-- ===== src/Gateway/Connection/Closing.antt =====
-- Sending after a close.
use stock_scanner.Prelude.{
  ◌≡◌, ◌≤◌, refl, Bool, true, false, not, List, [], ◌∷◌, arith, length, drop, is_empty,
  if◌then◌else◌,
}
use stock_scanner.Models.Alert.{Alert}
use stock_scanner.Gateway.Connection.{
  Connection, Message, panicked, sent, capacity, close, send_alert,
}

module _ {F : Type 0} (encodes : Alert F → Bool) (c : Connection F) where
  -- A connection with an open channel is closed. If no message was waiting, the channel is closed
  -- and an alert that is sent next, where the send is picked, panics. Else the oldest waiting
  -- message is lost, the channel stays open and the alert is sent into it.
  pub send_alert-close :
      (alert : Alert F)
      → c.closed ≡ false
      → c.open_channel ≡ true
      → encodes alert ≡ true
      → length c.send ≤ capacity
      → ((close c).open_channel ≡ not (is_empty c.send))
        × ((close c).send ≡ drop 1 c.send)
        × ((send_alert encodes (close c) alert true).0
            ≡ (if is_empty c.send then panicked else sent))
  unfolding send_alert close
  send_alert-close alert h o e b = closed_send c.send refl h o e b
    where
      closed_send :
          {alert : Alert F} (q : List (Message F))
          → c.send ≡ q
          → c.closed ≡ false
          → c.open_channel ≡ true
          → encodes alert ≡ true
          → length c.send ≤ capacity
          → ((close c).open_channel ≡ not (is_empty c.send))
            × ((close c).send ≡ drop 1 c.send)
            × ((send_alert encodes (close c) alert true).0
                ≡ (if is_empty c.send then panicked else sent))
      closed_send [] q h o e b = ground arith
      closed_send (m ∷ rest) q h o e b = ground (arith, q)
