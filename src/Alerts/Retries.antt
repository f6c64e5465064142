-- ===== src/Alerts/Retries.antt =====
-- When an alert is routed, and what a retry does.
use stock_scanner.Prelude.{
  ℕ, ◌+◌, ◌<◌, ◌≡◌, String, Bool, true, false, not, ◌&&◌, none, some, ◌∷◌, str_eq, eq_refl, ltb,
  if◌then◌else◌, ok, err, arith, Option-cases, inl, inr,
}
use stock_scanner.Dict.{lookup}
use stock_scanner.Dict.Laws.{lookup-insert}
use stock_scanner.Models.Alert.{Alert}
use stock_scanner.Alerts.{Faults, Pipeline, routing_failed, redis_key, process_alert}

module _ {F : Type 0} (ttl now : ℕ) (f : Faults) (a : Alert F) (p : Pipeline F) where
  -- The alert was seen less than the TTL ago.
  abbrev pub seen : Bool
  seen = elim (lookup (redis_key a) p.keys) [ none ↦ false | some expiry ↦ ltb now expiry ]

  -- An alert is routed exactly if the check of its key works, the key is not there, and the routing
  -- works. Its key is set, until the TTL has passed, exactly if the check works, the key is not
  -- there, and the write of it works; the keys of other alerts stay.
  pub process_alert_effect :
      (k : String)
      → ((process_alert ttl now f a p).1.routed ≡ (
          if not f.exists_fails && not seen && not f.route_fails then a ∷ p.routed else p.routed))
        × (lookup k (process_alert ttl now f a p).1.keys ≡ (
            if not f.exists_fails && not seen && not f.set_fails && str_eq (redis_key a) k
            then some (now + ttl)
            else lookup k p.keys))
  unfolding process_alert
  process_alert_effect k = elim (Option-cases (lookup (redis_key a) p.keys)) [
    | inl e ↦ ground (arith, lookup-insert (redis_key a) k (now + ttl) p.keys)
    | inr (x, e) ↦ ground (arith, lookup-insert (redis_key a) k (now + ttl) p.keys)
  ]

  -- An alert that is new and whose routing fails is not acknowledged, for it to be tried again. A
  -- retry within the TTL, whose check of the key works, is taken for a duplicate: it is
  -- acknowledged, and the alert is never routed.
  pub process_alert-retry :
      (later : ℕ) (f' : Faults)
      → f.exists_fails ≡ false
      → f.set_fails ≡ false
      → f.route_fails ≡ true
      → seen ≡ false
      → later < now + ttl
      → f'.exists_fails ≡ false
      → let first = process_alert ttl now f a p in
        let second = process_alert ttl later f' a first.1 in
        (first.0 ≡ err routing_failed) × (second.0 ≡ ok true) × (second.1.routed ≡ p.routed)
  unfolding process_alert
  process_alert-retry later f' e s r n q e' = elim (Option-cases (lookup (redis_key a) p.keys)) [
    | inl x ↦
        ground (
          arith,
          lookup-insert (redis_key a) (redis_key a) (now + ttl) p.keys,
          eq_refl (redis_key a),
        )
    | inr (x, y) ↦
        ground (
          arith,
          lookup-insert (redis_key a) (redis_key a) (now + ttl) p.keys,
          eq_refl (redis_key a),
        )
  ]
