-- ===== src/Scanner/ScanLoop/Invariant.antt =====
-- What holds of the stream and the cooldowns after any rule of a cycle: the alerts so far are spaced
-- and each is covered by a cooldown.
use stock_scanner.Prelude.{
  ℕ, ◌+◌, ◌≤◌, ◌≡◌, sym, subst, String, Bool, false, ◌&&◌, Option, none, some, List, [], ◌∷◌, ◌⊎◌,
  str_eq, eq_iff, arith, if◌then◌else◌, All,
}
use stock_scanner.Int64.{is_nonpos}
use stock_scanner.Dict.{get_or, IsMap}
use stock_scanner.Dict.Laws.{lookup-insert, insert-IsMap}
use stock_scanner.Models.Alert.{Alert}
use stock_scanner.Scanner.Cooldown.{Tracker, key, unnamed, record_cooldown}
use stock_scanner.Scanner.Emitter.{Env, now}
use stock_scanner.Scanner.ScanLoop.{Cycle}
use stock_scanner.Scanner.ScanLoop.Effects.{
  IsClock, clock_mono, until, marked, Effect, quiet, cooled, fired,
}

-- The tracker is set, with the global cooldown `d`.
abbrev pub Cools : ℕ → Option Tracker → Type 0
Cools d none = ⊥
Cools d (some ct) = (ct.global_cooldown ≡ d) × IsMap ct.cooldowns

module _ {F : Type 0} where
  abbrev pub same_pair : Alert F → Alert F → Bool
  same_pair a b = str_eq a.rule_id b.rule_id && str_eq a.symbol b.symbol

  abbrev pub Apart : ℕ → Alert F → Alert F → Type 0
  Apart d b a = (same_pair a b ≡ false) ⊎ (a.timestamp + d ≤ b.timestamp)

  -- Each alert of the stream, newest first, is apart from all the older ones.
  abbrev pub Spaced : ℕ → List (Alert F) → Type 0
  Spaced d [] = Unit {0}
  Spaced d (b ∷ older) = All (Apart d b) older × Spaced d older

  -- At a time, an alert is past and its cooldown is over or under way.
  abbrev pub Covers : ℕ → Option Tracker → ℕ → Alert F → Type 0
  Covers d o t a =
      (a.timestamp ≤ t) × ((a.timestamp + d ≤ t) ⊎ (a.timestamp + d ≤ until o a.rule_id a.symbol))

  abbrev pub Holds : ℕ → Option Tracker → ℕ → List (Alert F) → Type 0
  Holds d o t xs = Cools d o × All (Covers d o t) xs × Spaced d xs

  abbrev pub Inv : Env F → ℕ → Cycle F → Type 0
  Inv env d c = Holds d c.tracker (now env c.world) c.world.stream

  pub moved :
      (d : ℕ) {o o' : Option Tracker} (t : ℕ) {xs xs' : List (Alert F)}
      → o' ≡ o
      → xs' ≡ xs
      → Holds d o t xs
      → Holds d o' t xs'
  moved d {o} {o'} t {xs} {xs'} e e' h =
      subst (λ (ys : List (Alert F)). Holds d o' t ys) (sym e')
        (subst (λ (p : Option Tracker). Holds d p t xs) (sym e) h)

until-record_cooldown :
    (ct : Tracker) (t : ℕ) (r s r' s' : String)
    → is_nonpos ct.global_cooldown ≡ false
    → unnamed r s ≡ false
    → until (some (record_cooldown ct t r s 0)) r' s'
      ≡ (if str_eq (key r s) (key r' s') then t + ct.global_cooldown else until (some ct) r' s')
unfolding record_cooldown get_or
until-record_cooldown ct t r s r' s' p n =
    ground (arith, lookup-insert (key r s) (key r' s') (t + ct.global_cooldown) ct.cooldowns)

marked-Cools :
    (d : ℕ) (o : Option Tracker) (t : ℕ) (r s : String) → Cools d o → Cools d (marked o t r s)
unfolding record_cooldown
marked-Cools d none t r s h = h
marked-Cools d (some ct) t r s h =
    ground (arith, insert-IsMap (key r s) (t + ct.global_cooldown) ct.cooldowns h.1)

until-marked :
    (d : ℕ) (o : Option Tracker) (t : ℕ) (r s r' s' : String)
    → is_nonpos d ≡ false
    → Cools d o
    → unnamed r s ≡ false
    → until (marked o t r s) r' s' ≡ (if str_eq (key r s) (key r' s') then t + d else until o r' s')
until-marked d none t r s r' s' p h n = elim h [ ]
until-marked d (some ct) t r s r' s' p h n = ground (arith, until-record_cooldown ct t r s r' s')

-- What a new alert needs of the older ones
module _ {F : Type 0} (d : ℕ) (positive : is_nonpos d ≡ false) where
  later-Covers :
      (o : Option Tracker) (t t' : ℕ) (xs : List (Alert F))
      → t ≤ t'
      → All (Covers d o t) xs
      → All (Covers d o t') xs
  later-Covers o t t' [] h cs = tt
  later-Covers o t t' (a ∷ xs) h cs = (ground arith, later-Covers o t t' xs h cs.1)

  marked-Covers :
      (o : Option Tracker) (t i t' : ℕ) (r s : String) (xs : List (Alert F))
      → Cools d o
      → unnamed r s ≡ false
      → t ≤ i
      → i ≤ t'
      → All (Covers d o t) xs
      → All (Covers d (marked o i r s) t') xs
  marked-Covers o t i t' r s [] k n h h' cs = tt
  marked-Covers o t i t' r s (a ∷ xs) k n h h' cs = (
    ground (arith, until-marked d o i r s a.rule_id a.symbol positive k n),
    marked-Covers o t i t' r s xs k n h h' cs.1,
  )

  covered-Apart :
      (o : Option Tracker) (t : ℕ) (b : Alert F) (xs : List (Alert F))
      → t ≤ b.timestamp
      → until o b.rule_id b.symbol ≤ b.timestamp
      → All (Covers d o t) xs
      → All (Apart d b) xs
  covered-Apart o t b [] h u cs = tt
  covered-Apart o t b (a ∷ xs) h u cs = (
    ground (arith, eq_iff a.rule_id b.rule_id, eq_iff a.symbol b.symbol),
    covered-Apart o t b xs h u cs.1,
  )

module _ {F : Type 0} (env : Env F) (mono : IsClock env) (d : ℕ)
    (positive : is_nonpos d ≡ false) where
  pub Effect-Inv : {c c' : Cycle F} → Effect env c c' → Inv env d c → Inv env d c'
  Effect-Inv {c} {c'} (quiet st tr g) (k, cs, sp) =
      moved d (now env c'.world) tr st
        (k, later-Covers d positive c.tracker _ _ c.world.stream (clock_mono env mono _ _ g) cs, sp)
  Effect-Inv {c} {c'} (cooled r s i st n g g' tr) (k, cs, sp) = moved d (now env c'.world) tr st (
    marked-Cools d c.tracker (env.clock i) r s k,
    marked-Covers d positive c.tracker _ _ _ r s c.world.stream k n (clock_mono env mono _ _ g)
        (clock_mono env mono _ _ g') cs,
    sp,
  )
  Effect-Inv {c} {c'} (fired a i st n g g' tr u lo hi) (k, cs, sp) =
      let before = clock_mono env mono c.world.reads i g in
      let after = clock_mono env mono i c'.world.reads g' in
      moved d (now env c'.world) tr st (
        marked-Cools d c.tracker (env.clock i) a.rule_id a.symbol k,
        (
          ground (
            arith,
            until-marked d c.tracker (env.clock i) a.rule_id a.symbol a.rule_id a.symbol positive k
                n,
            eq_iff (key a.rule_id a.symbol) (key a.rule_id a.symbol),
            after,
          ),
          marked-Covers d positive c.tracker _ _ _ a.rule_id a.symbol c.world.stream k n before
              after cs,
        ),
        (covered-Apart d positive c.tracker _ a c.world.stream lo u cs, sp),
      )
