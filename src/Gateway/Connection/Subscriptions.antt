-- ===== src/Gateway/Connection/Subscriptions.antt =====
-- Which alerts a connection gets after any messages of its client.
use stock_scanner.Prelude.{
  ℕ, String, ◌≡◌, refl, ap, map, ◌∙◌, Bool, true, false, not, ◌&&◌, ◌||◌, List, [], ◌∷◌, str_eq,
  eq_iff, arith, if◌then◌else◌, is_empty,
}
use stock_scanner.Dict.{lookup, get_or}
use stock_scanner.Dict.Laws.{lookup-insert, lookup-remove}
use stock_scanner.Gateway.Connection.{
  Connection, ClientMessage, requested, new_connection, subscribe, unsubscribe, is_subscribed,
  subscribe_all, unsubscribe_all, send_error, subscribe_toplist, unsubscribe_toplist,
  handle_client_message,
}

abbrev pub member : String → List String → Bool
member s [] = false
member s (x ∷ xs) = str_eq x s || member s xs

-- Whether a message leaves the client subscribed to a symbol, if it was so before.
abbrev pub after : String → ClientMessage → Bool → Bool
after s msg before =
    if str_eq msg.kind "subscribe"
    then before || member s (requested msg)
    else if str_eq msg.kind "unsubscribe"
    then before && not (member s (requested msg))
    else before

abbrev pub after_all : String → List ClientMessage → Bool → Bool
after_all s [] before = before
after_all s (msg ∷ msgs) before = after_all s msgs (after s msg before)

member-nil : (s : String) (xs : List String) → is_empty xs ≡ true → member s xs ≡ false
member-nil s [] h = refl
member-nil s (x ∷ xs) h = cc

module _ {F : Type 0} where
  subscribe_all-member :
      (c : Connection F) (xs : List String) (s : String)
      → is_subscribed (subscribe_all c xs) s ≡ (is_subscribed c s || member s xs)
  unfolding subscribe_all is_subscribed
  subscribe_all-member c [] s = ground arith
  subscribe_all-member c (x ∷ xs) s = ground (
    arith,
    subscribe_all-member (subscribe c x) xs s,
    lookup-insert x s true c.subscriptions,
    eq_iff x s,
  )

  unsubscribe_all-member :
      (c : Connection F) (xs : List String) (s : String)
      → is_subscribed (unsubscribe_all c xs) s ≡ (is_subscribed c s && not (member s xs))
  unfolding unsubscribe_all is_subscribed
  unsubscribe_all-member c [] s = ground arith
  unsubscribe_all-member c (x ∷ xs) s = ground (
    arith,
    unsubscribe_all-member (unsubscribe c x) xs s,
    lookup-remove x s c.subscriptions,
    eq_iff x s,
  )

  send_error-subscriptions :
      (c : Connection F) (code : String) (pick : Bool)
      → (send_error c code pick).1.subscriptions ≡ c.subscriptions
  unfolding send_error
  send_error-subscriptions c code pick = ground arith

  send_error-is_subscribed :
      (c : Connection F) (code : String) (pick : Bool) (s : String)
      → is_subscribed (send_error c code pick).1 s ≡ is_subscribed c s
  unfolding is_subscribed
  send_error-is_subscribed c code pick s =
      ap (get_or false s) (send_error-subscriptions c code pick)

  toplists-is_subscribed :
      (c : Connection F) (t s : String)
      → (is_subscribed (subscribe_toplist c t) s ≡ is_subscribed c s)
        × (is_subscribed (unsubscribe_toplist c t) s ≡ is_subscribed c s)
  unfolding is_subscribed subscribe_toplist unsubscribe_toplist
  toplists-is_subscribed c t s = (refl, refl)

  handled-after :
      (c : Connection F) (msg : ClientMessage) (pick : Bool) (s : String)
      → is_subscribed (handle_client_message c msg pick).1 s ≡ after s msg (is_subscribed c s)
  unfolding handle_client_message
  handled-after c msg pick s = ground (
    arith,
    subscribe_all-member c (requested msg) s,
    unsubscribe_all-member c (requested msg) s,
    member-nil s (requested msg),
    toplists-is_subscribed c msg.symbol s,
    send_error-is_subscribed c "invalid_request" pick s,
    send_error-is_subscribed c "unknown_message_type" pick s,
  )

  pub handle_all : Connection F → List (ClientMessage × Bool) → Connection F
  handle_all c [] = c
  handle_all c ((msg, pick) ∷ rest) = handle_all (handle_client_message c msg pick).1 rest

  handle_all-after :
      (c : Connection F) (msgs : List (ClientMessage × Bool)) (s : String)
      → is_subscribed (handle_all c msgs) s ≡ after_all s (map (λ m. m.0) msgs) (is_subscribed c s)
  unfolding handle_all
  handle_all-after c [] s = refl
  handle_all-after c ((msg, pick) ∷ rest) s =
      handle_all-after (handle_client_message c msg pick).1 rest s
      ∙ ap (after_all s (map (λ m. m.0) rest)) (handled-after c msg pick s)

-- After any messages on a new connection, the client is subscribed to a symbol exactly if the
-- last subscribe or unsubscribe message that names the symbol is a subscribe message.
pub handle_all-is_subscribed :
    (F : Type 0) (id user_id : String) (now now' : ℕ) (msgs : List (ClientMessage × Bool))
    (s : String)
    → is_subscribed (handle_all (new_connection {F = F} id user_id now now') msgs) s
      ≡ after_all s (map (λ m. m.0) msgs) false
unfolding new_connection is_subscribed get_or lookup
handle_all-is_subscribed F id user_id now now' msgs s =
    handle_all-after (new_connection {F = F} id user_id now now') msgs s
