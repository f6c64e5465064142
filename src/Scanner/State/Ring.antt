-- ===== src/Scanner/State/Ring.antt =====
-- `push_bounded` keeps the last `n` entries.
use stock_scanner.Prelude.{
  ℕ, zero, suc, ◌-◌, ◌<◌, ◌≤◌, ◌≡◌, refl, sym, ap, ◌∙◌, List, [], ◌∷◌, ◌++◌, length, drop,
  length-append, arith, ltb, if◌then◌else◌, Bool-cases, inl, inr,
}
use stock_scanner.Scanner.State.{push_bounded}

module _ {ℓ} {A : Type ℓ} where
  abbrev pub last_of : ℕ → List A → List A
  last_of n xs = drop (length xs - n) xs

  drop-append : (k : ℕ) (xs ys : List A) → k ≤ length xs → drop k (xs ++ ys) ≡ drop k xs ++ ys
  drop-append zero xs ys h = refl
  drop-append (suc k) [] ys h = absurd (omega arith)
  drop-append (suc k) (x ∷ xs) ys h = drop-append k xs ys (omega arith)

  length-drop : (k : ℕ) (xs : List A) → length (drop k xs) ≡ length xs - k
  length-drop zero xs = omega arith
  length-drop (suc k) [] = omega arith
  length-drop (suc k) (x ∷ xs) = omega (arith, length-drop k xs)

  drop-drop : (k : ℕ) (xs : List A) → drop 1 (drop k xs) ≡ drop (suc k) xs
  drop-drop zero xs = refl
  drop-drop (suc k) [] = refl
  drop-drop (suc k) (x ∷ xs) = drop-drop k xs

  abbrev cut : ℕ → List A → List A
  cut n zs = if ltb n (length zs) then drop 1 zs else zs

  cut-drop :
      (n : ℕ) (ys : List A) (k : ℕ)
      → k ≡ length ys - 1 - n
      → 0 < n
      → 0 < length ys
      → cut n (drop k ys) ≡ drop (length ys - n) ys
  cut-drop n ys k e p q = elim (Bool-cases (ltb n (length (drop k ys)))) [
    | inl full ↦
        rw full
          (drop-drop k ys ∙ ap (λ j. drop j ys) {x = suc k} (ground (arith, length-drop k ys)))
    | inr room ↦ rw room (ap (λ j. drop j ys) (ground (arith, length-drop k ys)))
  ]

  pub push_bounded-last_of :
      (n : ℕ) (xs : List A) (x : A)
      → 0 < n
      → push_bounded n (last_of n xs) x ≡ last_of n (xs ++ x ∷ [])
  unfolding push_bounded
  push_bounded-last_of n xs x p =
      let k = length xs - n in
      let len = length-append xs (x ∷ []) in
      ap (cut n) (sym (drop-append k xs (x ∷ []) (omega arith)))
      ∙ cut-drop n (xs ++ x ∷ []) k (omega (arith, len)) p (omega (arith, len))
