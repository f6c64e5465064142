-- ===== src/Gateway/Hub/Broadcast.antt =====
-- Who gets an alert.
use stock_scanner.Prelude.{
  ℕ, ◌<◌, String, ◌≡◌, refl, sym, ap, ◌∙◌, subst, Bool, true, false, ◌||◌, Option, none, some, List,
  [], ◌∷◌, length, All, str_eq, eq_iff, arith, if◌then◌else◌, Bool-cases, inl, inr,
}
use stock_scanner.Dict.{lookup}
use stock_scanner.Dict.Laws.{lookup-insert}
use stock_scanner.Models.Alert.{Alert}
use stock_scanner.Gateway.Registry.{Handle, get_all}
use stock_scanner.Gateway.Connection.{
  Connection, alert_message, capacity, should_receive_alert, send_alert, enqueue,
}
use stock_scanner.Gateway.Hub.{Hub, broadcast_to, broadcast_all, broadcast_alert}

-- No two connections of a list have one ID.
abbrev pub AllDistinct : List Handle → Type 0
AllDistinct [] = Unit {0}
AllDistinct (k ∷ ks) = All (λ j. str_eq k.id j.id ≡ false) ks × AllDistinct ks

abbrev pub listed : String → List Handle → Bool
listed id [] = false
listed id (k ∷ ks) = str_eq k.id id || listed id ks

module _ {F : Type 0} where
  -- The connection can take a message: it is not closed, and its queue has room.
  abbrev pub IsReady : Option (Connection F) → Type 0
  IsReady none = Unit {0}
  IsReady (some c) = (c.open_channel ≡ true) × (c.cancelled ≡ false) × (length c.send < capacity)

  -- A connection that should receive the alert has it at the end of its queue.
  abbrev pub delivered : Alert F → Option (Connection F) → Option (Connection F)
  delivered alert none = none
  delivered alert (some c) =
      some (if should_receive_alert c alert then enqueue c (alert_message alert) else c)

-- The branch after a test that fails
unless {ℓ} :
    {A : Type ℓ} (P : A → Type 0) (b : Bool) (x y : A) → b ≡ false → P y → P (if b then x else y)
unless P true x y e p = cc
unless P false x y e p = p

abbrev Got : {F : Type 0} → String → Option (Connection F) → ℕ × Hub F → Type 0
Got j o (n, h) = (lookup j h.heap ≡ o) × (h.crashed ≡ false)

not_listed :
    (id j : String) (ks : List Handle)
    → All (λ k. str_eq id k.id ≡ false) ks
    → str_eq id j ≡ true
    → listed j ks ≡ false
not_listed id j [] d e = refl
not_listed id j (k ∷ ks) d e =
    ground (arith, not_listed id j ks d.1 e, eq_iff id j, eq_iff id k.id, eq_iff k.id j)

module _ {F : Type 0} (encodes : Alert F → Bool) (pick : String → Bool) (alert : Alert F)
    (encoded : encodes alert ≡ true) where
  sent_alert :
      (id : String) (o : Option (Connection F)) (n : ℕ) (h : Hub F) (j : String)
      → lookup id h.heap ≡ o
      → h.crashed ≡ false
      → IsReady o
      → (lookup j (broadcast_to encodes pick alert id o (n, h)).1.heap
          ≡ (if str_eq id j then delivered alert o else lookup j h.heap))
        × ((broadcast_to encodes pick alert id o (n, h)).1.crashed ≡ false)
        × ((broadcast_to encodes pick alert id o (n, h)).1.registry ≡ h.registry)
  unfolding broadcast_to send_alert
  sent_alert id none n h j e a r = ground (arith, eq_iff id j)
  sent_alert id (some c) n h j e a r =
      ground
        (arith, eq_iff id j, lookup-insert id j (enqueue c (alert_message alert)) h.heap, encoded)

  IsReady-after :
      (id : String) (o : Option (Connection F)) (n : ℕ) (h : Hub F) (ks : List Handle)
      → lookup id h.heap ≡ o
      → h.crashed ≡ false
      → IsReady o
      → All (λ j. str_eq id j.id ≡ false) ks
      → All (λ (k : Handle). IsReady (lookup k.id h.heap)) ks
      → All
          (λ (k : Handle).
            IsReady (lookup k.id (broadcast_to encodes pick alert id o (n, h)).1.heap))
          ks
  IsReady-after id o n h [] e a r d q = tt
  IsReady-after id o n h (k ∷ ks) e a r d q = (
    subst IsReady (rw d.0 at (sym (sent_alert id o n h k.id e a r).0)) q.0,
    IsReady-after id o n h ks e a r d.1 q.1,
  )

  broadcast_all_lem :
      (ks : List Handle) (n : ℕ) (h : Hub F) (j : String)
      → h.crashed ≡ false
      → AllDistinct ks
      → All (λ (k : Handle). IsReady (lookup k.id h.heap)) ks
      → (lookup j (broadcast_all encodes pick alert ks (n, h)).1.heap
          ≡ (if listed j ks then delivered alert (lookup j h.heap) else lookup j h.heap))
        × ((broadcast_all encodes pick alert ks (n, h)).1.crashed ≡ false)
  unfolding broadcast_all
  broadcast_all_lem [] n h j a d q = ground arith
  broadcast_all_lem (k ∷ ks) n h j a d q =
      let o = lookup k.id h.heap in
      let next = broadcast_to encodes pick alert k.id o (n, h) in
      let first = sent_alert k.id o n h j refl a q.0 in
      let rest =
        broadcast_all_lem ks next.0 next.1 j first.1 d.1
          (IsReady-after k.id o n h ks refl a q.0 d.0 q.1) in
      unless
        (Got j (if listed j (k ∷ ks) then delivered alert (lookup j h.heap) else lookup j h.heap))
        h.crashed (n, h) (broadcast_all encodes pick alert ks next) a
        (
          rest.0 ∙ elim (Bool-cases (str_eq k.id j)) [
            | inl own ↦
                let same : k.id ≡ j = (eq_iff k.id j).0 own in
                rw (not_listed k.id j ks d.0 own, own)
                  (first.0 ∙ rw own (ap (λ i. delivered alert (lookup i h.heap)) same))
            | inr other ↦
                let kept : lookup j next.1.heap ≡ lookup j h.heap = first.0 ∙ rw other refl in
                ap (λ x. if listed j ks then delivered alert x else x) kept ∙ rw other refl
          ],
          rest.1,
        )

  -- While no two registered connections have one ID and each can take a message, an alert that
  -- encodes is put at the end of the queues of exactly the registered connections that should
  -- receive it; every other connection stays as it is, and nothing panics.
  pub broadcast_alert-delivered :
      (h : Hub F) (j : String)
      → h.crashed ≡ false
      → AllDistinct (get_all h.registry)
      → All (λ (k : Handle). IsReady (lookup k.id h.heap)) (get_all h.registry)
      → (lookup j (broadcast_alert encodes pick h alert).heap ≡ (
          if listed j (get_all h.registry)
          then delivered alert (lookup j h.heap)
          else lookup j h.heap))
        × ((broadcast_alert encodes pick h alert).crashed ≡ false)
  unfolding broadcast_alert
  broadcast_alert-delivered h j a d q =
      let all = broadcast_all_lem (get_all h.registry) 0 h j a d q in
      let s = broadcast_all encodes pick alert (get_all h.registry) (0, h) in
      let expected =
        if listed j (get_all h.registry)
        then delivered alert (lookup j h.heap)
        else lookup j h.heap in
      unless (λ (x : Hub F). Got j expected (0, x)) s.1.crashed s.1 _ all.1 all
