-- ===== src/Dict/Laws.antt =====
-- The laws of the dictionary operations.
use stock_scanner.Prelude.{
  String, ◌≡◌, refl, subst, false, none, some, [], ◌∷◌, arith, str_eq, eq_iff, if◌then◌else◌, inl,
  inr, Bool-cases,
}
use stock_scanner.Dict.{Dict, lookup, insert, remove, Fresh, IsMap}

module _ {ℓ} {V : Type ℓ} where
  pub lookup-insert :
      (written read : String) (v : V) (m : Dict V)
      → lookup read (insert written v m) ≡ (if str_eq written read then some v else lookup read m)
  unfolding lookup insert
  lookup-insert written read v [] = refl
  lookup-insert written read v (entry ∷ m) =
      let rest = lookup-insert written read v m in
      ground (arith, eq_iff entry.0 read, eq_iff entry.0 written, eq_iff written read, rest)

  pub lookup-remove :
      (k j : String) (m : Dict V)
      → lookup j (remove k m) ≡ (if str_eq k j then none else lookup j m)
  unfolding lookup remove
  lookup-remove k j [] = ground arith
  lookup-remove k j ((i, w) ∷ m) =
      ground (arith, eq_iff k j, eq_iff i k, eq_iff i j, lookup-remove k j m)

  pub lookup-empty : (j : String) → lookup {V = V} j [] ≡ none
  unfolding lookup
  lookup-empty j = refl

  Fresh-insert :
      (k j : String) (v : V) (m : Dict V) → str_eq k j ≡ false → Fresh j m → Fresh j (insert k v m)
  unfolding insert
  Fresh-insert k j v [] h f = (h, tt)
  Fresh-insert k j v ((i, w) ∷ m) h f = ground (arith, Fresh-insert k j v m)

  Fresh-remove : (k j : String) (m : Dict V) → Fresh j m → Fresh j (remove k m)
  unfolding remove
  Fresh-remove k j [] f = tt
  Fresh-remove k j ((i, w) ∷ m) f = ground (arith, Fresh-remove k j m)

  pub insert-IsMap : (k : String) (v : V) (m : Dict V) → IsMap m → IsMap (insert k v m)
  unfolding insert
  insert-IsMap k v [] h = (tt, tt)
  insert-IsMap k v ((i, w) ∷ m) h = elim (Bool-cases (str_eq i k)) [
    | inl e ↦ rw e (subst (λ x. Fresh x m × IsMap m) ((eq_iff i k).0 e) h)
    | inr e ↦
        rw e (
          Fresh-insert k i v m (ground (arith, eq_iff i k, eq_iff k i)) h.0,
          insert-IsMap k v m h.1,
        )
  ]

  pub remove-IsMap : (k : String) (m : Dict V) → IsMap m → IsMap (remove k m)
  unfolding remove
  remove-IsMap k [] h = tt
  remove-IsMap k ((i, w) ∷ m) h = ground (arith, Fresh-remove k i m, remove-IsMap k m)

  pub lookup-Fresh : (k : String) (m : Dict V) → Fresh k m → lookup k m ≡ none
  unfolding lookup
  lookup-Fresh k [] f = refl
  lookup-Fresh k ((i, w) ∷ m) f = ground (arith, lookup-Fresh k m)

pub ruleset dict_laws = (lookup-insert, lookup-remove, lookup-empty)
