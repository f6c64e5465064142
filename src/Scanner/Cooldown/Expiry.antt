-- ===== src/Scanner/Cooldown/Expiry.antt =====
-- How long a rule stays on cooldown, and that the cleanup is not seen.
use stock_scanner.Prelude.{
  ℕ, ◌+◌, ◌≤◌, String, ◌≡◌, refl, Bool, false, ◌&&◌, ◌||◌, none, some, List, [], ◌∷◌, str_eq,
  eq_iff, ltb, if◌then◌else◌, arith, Bool-cases, inl, inr,
}
use stock_scanner.Int64.{is_nonpos}
use stock_scanner.Dict.{Dict, lookup, remove, IsMap}
use stock_scanner.Dict.Laws.{lookup-insert, lookup-remove, remove-IsMap, lookup-Fresh}
use mathlib.Core.Path.{ap₂}
use stock_scanner.Scanner.Cooldown.Keys.{IsBarFree, key-injective}
use stock_scanner.Scanner.Cooldown.{
  Tracker, key, unnamed, is_on_cooldown, record_cooldown, expired, remove_all, cleanup_expired,
}

abbrev pub hit : String → List String → Bool
hit k [] = false
hit k (j ∷ js) = str_eq j k || hit k js

pub lookup-remove_all :
    (ks : List String) (m : Dict ℕ) (k : String)
    → lookup k (remove_all ks m) ≡ (if hit k ks then none else lookup k m)
unfolding remove_all
lookup-remove_all [] m k = refl
lookup-remove_all (j ∷ js) m k =
    ground (arith, lookup-remove_all js (remove j m) k, lookup-remove j k m)

pub remove_all-IsMap : (ks : List String) (m : Dict ℕ) → IsMap m → IsMap (remove_all ks m)
unfolding remove_all
remove_all-IsMap [] m u = u
remove_all-IsMap (k ∷ ks) m u = remove_all-IsMap ks (remove k m) (remove-IsMap k m u)

pub hit-expired :
    (now : ℕ) (m : Dict ℕ) (k : String)
    → IsMap m
    → hit k (expired now m) ≡ (elim (lookup k m) [ none ↦ false | some e ↦ ltb e now ])
unfolding expired lookup
hit-expired now [] k u = refl
hit-expired now ((j, e) ∷ m) k u = ground (arith, hit-expired now m k, eq_iff j k, lookup-Fresh j m)

-- A cleanup at `now` changes no answer from then on: it removes only cooldowns that are over.
pub is_on_cooldown-cleanup_expired :
    (ct : Tracker) (now later : ℕ) (rule_id symbol : String)
    → IsMap ct.cooldowns
    → now ≤ later
    → is_on_cooldown (cleanup_expired ct now) later rule_id symbol
      ≡ is_on_cooldown ct later rule_id symbol
unfolding is_on_cooldown cleanup_expired
is_on_cooldown-cleanup_expired ct now later rule_id symbol u h =
    let k = key rule_id symbol in
    ground (
      arith,
      lookup-remove_all (expired now ct.cooldowns) ct.cooldowns k,
      hit-expired now ct.cooldowns k u,
    )

recorded :
    (ct : Tracker) (now later seconds : ℕ) (r s r' s' : String)
    → is_nonpos ct.global_cooldown ≡ false
    → unnamed r s ≡ false
    → unnamed r' s' ≡ false
    → is_on_cooldown (record_cooldown ct now r s seconds) later r' s' ≡ (
        if str_eq (key r s) (key r' s')
        then ltb later (now + ct.global_cooldown)
        else is_on_cooldown ct later r' s')
unfolding is_on_cooldown record_cooldown
recorded ct now later seconds r s r' s' on n n' = elim (Bool-cases (str_eq (key r s) (key r' s'))) [
  | inl same ↦
      rw (
        n,
        on,
        n',
        lookup-insert (key r s) (key r' s') (now + ct.global_cooldown) ct.cooldowns,
        same,
      )
  | inr other ↦ rw (
    n,
    on,
    n',
    lookup-insert (key r s) (key r' s') (now + ct.global_cooldown) ct.cooldowns,
    other,
  )
]

same_key :
    (r s r' s' : String)
    → IsBarFree r
    → IsBarFree r'
    → str_eq (key r s) (key r' s') ≡ (str_eq r r' && str_eq s s')
same_key r s r' s' f f' = ground (
  arith,
  eq_iff (key r s) (key r' s'),
  eq_iff r r',
  eq_iff s s',
  key-injective r r' s s' f f',
  λ (p : r ≡ r') (q : s ≡ s'). ap₂ key p q,
)

-- After a rule fired for a symbol at `now`, under a positive global cooldown, the pair is on
-- cooldown until exactly `now` plus the global cooldown, whatever seconds the caller passes, and
-- the answer for every other rule or symbol stays: neither ID being empty or holding a bar.
pub is_on_cooldown-record_cooldown :
    (ct : Tracker) (now later seconds : ℕ) (r s r' s' : String)
    → is_nonpos ct.global_cooldown ≡ false
    → unnamed r s ≡ false
    → unnamed r' s' ≡ false
    → IsBarFree r
    → IsBarFree r'
    → is_on_cooldown (record_cooldown ct now r s seconds) later r' s' ≡ (
        if str_eq r r' && str_eq s s'
        then ltb later (now + ct.global_cooldown)
        else is_on_cooldown ct later r' s')
is_on_cooldown-record_cooldown ct now later seconds r s r' s' on n n' f f' =
    rw (← same_key r s r' s' f f') (recorded ct now later seconds r s r' s' on n n')
