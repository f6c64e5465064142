-- ===== src/Metrics/ActivityFilters/Runs.antt =====
-- internal/metrics/activity_filters.go: the candles that are counted.
use stock_scanner.Prelude.{
  ℕ, suc, zero, ◌+◌, ◌<◌, ◌≡◌, ◌≢◌, refl, ap, Bool, true, false, Option, none, some, List, [], ◌∷◌,
  ◌++◌, arith, Bool-cases, inl, inr,
}
use stock_scanner.Prelude.Options.{first}
use stock_scanner.Metrics.ActivityFilters.{same_direction, count_same, backwards, consecutive}

abbrev pub replicate : {A : Type 0} → ℕ → A → List A
replicate zero x = []
replicate (suc n) x = x ∷ replicate n x

-- Of directions with the latest first: `n` of them are `d`, and then comes another one or none.
abbrev pub IsRun : List Bool → Option (Bool × ℕ) → Type 0
IsRun latest none = latest ≡ []
IsRun latest (some run) =
    (0 < run.1)
    × ((earlier : List Bool) × (latest ≡ replicate run.1 run.0 ++ earlier)
        × (first earlier ≢ some run.0))

record Counted (d : Bool) (count : ℕ) (ds : List Bool) : Type 0 where
  more : ℕ
  earlier : List Bool
  counted : count_same d count ds ≡ count + more
  split : ds ≡ replicate more d ++ earlier
  ends : first earlier ≢ some d

same_direction→eq : (e d : Bool) → same_direction e d ≡ true → e ≡ d
same_direction→eq true d h = ground arith
same_direction→eq false d h = ground arith

same_direction_refl : (d : Bool) → same_direction d d ≡ true
same_direction_refl true = refl
same_direction_refl false = refl

count_same-Counted : (d : Bool) (count : ℕ) (ds : List Bool) → Counted d count ds
unfolding count_same
count_same-Counted d count [] = record {
  more = 0;
  earlier = [];
  counted = omega arith;
  split = refl;
  ends = λ h. ground arith;
}
count_same-Counted d count (e ∷ ds) = elim (Bool-cases (same_direction e d)) [
  | inl h ↦
      let rest = count_same-Counted d (suc count) ds in
      record {
        more = suc rest.more;
        earlier = rest.earlier;
        counted = rw h (omega (arith, rest.counted));
        split = rw (same_direction→eq e d h) (ap (λ xs. d ∷ xs) rest.split);
        ends = rest.ends;
      }
  | inr h ↦ record {
    more = 0;
    earlier = e ∷ ds;
    counted = rw h (omega arith);
    split = refl;
    ends = λ q. ground (arith, same_direction_refl d);
  }
]

-- The candles counted are the longest run of one direction that ends with the latest candle, and
-- nothing is counted only if there is no candle.
pub consecutive-IsRun :
    (directions : List Bool) → IsRun (backwards directions) (consecutive directions)
unfolding consecutive
consecutive-IsRun directions = run (backwards directions)
  where
    run :
        (latest : List Bool)
        → IsRun latest (elim latest as (λ _. Option (Bool × ℕ)) [
          | [] ↦ none
          | d ∷ ds ↦ some (d, count_same d 1 ds)
        ])
    run [] = refl
    run (d ∷ ds) =
        let c = count_same-Counted d 1 ds in
        let counted : count_same d 1 ds ≡ suc c.more = omega (arith, c.counted) in
        rw counted (omega arith, (c.earlier, ap (λ xs. d ∷ xs) c.split, c.ends))
