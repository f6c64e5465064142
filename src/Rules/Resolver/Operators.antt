-- ===== src/Rules/Resolver/Operators.antt =====
-- When a condition evaluates to an answer, and how the six operators relate.
use stock_scanner.Prelude.{
  String, ◌≡◌, refl, sym, ◌∙◌, subst, Bool, true, false, not, some, str_eq, eq_iff, arith,
  if◌then◌else◌, Result, ok, err, is_ok, ◌⊎◌, inl, inr, ◌>>◌,
}
use stock_scanner.Float.{Float, IsOrdered, IsNumber}
use stock_scanner.Dict.{Dict}
use stock_scanner.Models.Rule.{
  Value, nil_value, number, text, other, Condition, valid_op, validate_model_condition,
}
use stock_scanner.Rules.Error.{RuleError}
use stock_scanner.Rules.Validation.{lift, validate_value, validate_condition}
use stock_scanner.Rules.Filters.{validate_filter_config}
use stock_scanner.Rules.Resolver.{MetricResolver, is_numeric, compare_values, evaluate_condition}

valid_op_cases :
    (op : String)
    → valid_op op ≡ true
    → (op ≡ ">") ⊎ (op ≡ "<") ⊎ (op ≡ ">=") ⊎ (op ≡ "<=") ⊎ (op ≡ "==") ⊎ (op ≡ "!=")
unfolding valid_op
valid_op_cases op h = ground (
  arith,
  eq_iff op ">",
  eq_iff op "<",
  eq_iff op ">=",
  eq_iff op "<=",
  eq_iff op "==",
  eq_iff op "!=",
)

-- A property of the six operators, one by one.
valid_op_elim :
    (P : String → Type 0) (op : String)
    → valid_op op ≡ true
    → P ">"
    → P "<"
    → P ">="
    → P "<="
    → P "=="
    → P "!="
    → P op
valid_op_elim P op h gt lt ge le eq ne = elim (valid_op_cases op h) [
  | inl e ↦ subst P (sym e) gt
  | inr (inl e) ↦ subst P (sym e) lt
  | inr (inr (inl e)) ↦ subst P (sym e) ge
  | inr (inr (inr (inl e))) ↦ subst P (sym e) le
  | inr (inr (inr (inr (inl e)))) ↦ subst P (sym e) eq
  | inr (inr (inr (inr (inr e)))) ↦ subst P (sym e) ne
]

-- The operator that a condition's negation has.
abbrev pub negated : String → String
negated op =
    if str_eq op ">"
    then "<="
    else if str_eq op "<"
    then ">="
    else if str_eq op ">="
    then "<"
    else if str_eq op "<="
    then ">"
    else if str_eq op "=="
    then "!="
    else "=="

abbrev pub negate : Result RuleError Bool → Result RuleError Bool
negate (ok b) = ok (not b)
negate (err e) = err e

text_op : (op : String) → (op ≡ "==") ⊎ (op ≡ "!=") → valid_op op ≡ true
unfolding valid_op
text_op op (inl e) = rw (e) refl
text_op op (inr e) = rw (e) refl

passed-parts :
    (m f v : Result RuleError (Unit {0})) → (m >> (f >> v)) ≡ ok tt → (m ≡ ok tt) × (f ≡ ok tt)
passed-parts (ok u) (ok w) v h = (refl, refl)
passed-parts (ok u) (err e) v h = cc
passed-parts (err e) f v h = cc

module _ {F : Type 0} ⦃fl : Float F⦄ where
  compare_number-is_ok :
      (op : String) (x y : F) → valid_op op ≡ true → is_ok (compare_values op (number y) x y) ≡ true
  unfolding compare_values
  compare_number-is_ok op x y h =
      valid_op_elim (λ o. is_ok (compare_values o (number y) x y) ≡ true) op h refl refl refl refl
        refl refl

  validated-op : (c : Condition F) → validate_condition c ≡ ok tt → valid_op c.operator ≡ true
  unfolding validate_condition validate_model_condition
  validated-op c h = ground arith

  evaluated-is_ok :
      (c : Condition F) (v : Value F) (resolver : MetricResolver F) (m : Dict F) (x : F)
      → c.value ≡ v
      → valid_op c.operator ≡ true
      → resolver c.metric m ≡ ok x
      → is_ok (evaluate_condition (some c) resolver m) ≡ is_numeric v
  unfolding evaluate_condition
  evaluated-is_ok c nil_value resolver m x e h r = rw (r, e)
  evaluated-is_ok c (number y) resolver m x e h r =
      rw (r, e) (compare_number-is_ok c.operator x y h)
  evaluated-is_ok c (text s) resolver m x e h r = rw (r, e)
  evaluated-is_ok c other resolver m x e h r = rw (r, e)

  named : (c : Condition F) → lift (validate_model_condition c) ≡ ok tt → str_eq c.metric "" ≡ false
  unfolding validate_model_condition
  named c h = ground arith

  validated-parts :
      (c : Condition F)
      → validate_condition c ≡ ok tt
      → (str_eq c.metric "" ≡ false) × (validate_filter_config c ≡ ok tt)
  unfolding validate_condition
  validated-parts c h =
      let parts =
        passed-parts (lift (validate_model_condition c)) (validate_filter_config c)
          (validate_value c.operator c.value) h in
      (named c parts.0, parts.1)

  filter_config_value :
      (c : Condition F) (op : String) (v : Value F)
      → validate_filter_config (record c { operator = op; value = v }) ≡ validate_filter_config c
  unfolding validate_filter_config
  filter_config_value c op v = refl

  validated-text :
      (c : Condition F) (op s : String)
      → (op ≡ "==") ⊎ (op ≡ "!=")
      → validate_condition c ≡ ok tt
      → validate_condition (record c { operator = op; value = text s }) ≡ ok tt
  unfolding validate_condition validate_model_condition validate_value valid_op
  validated-text c op s e h =
      let parts = validated-parts c h in
      let same = filter_config_value c op (text s) ∙ parts.1 in
      elim e [
        | inl equal ↦ rw (parts.0, same, equal) refl
        | inr unequal ↦ rw (parts.0, same, unequal) refl
      ]

  -- A validated condition whose metric resolves evaluates to an answer exactly when its value is
  -- numeric. Validation also lets it through with any text and `==` or `!=`, and evaluating that
  -- is always an error.
  pub evaluate_condition-is_ok :
      (c : Condition F) (resolver : MetricResolver F) (m : Dict F) (x : F) (op s : String)
      → validate_condition c ≡ ok tt
      → resolver c.metric m ≡ ok x
      → (op ≡ "==") ⊎ (op ≡ "!=")
      → let with_text = record c { operator = op; value = text s } in
        (is_ok (evaluate_condition (some c) resolver m) ≡ is_numeric c.value)
        × (validate_condition with_text ≡ ok tt)
        × (is_ok (evaluate_condition (some with_text) resolver m) ≡ false)
  unfolding is_numeric
  evaluate_condition-is_ok c resolver m x op s valid r e = (
    evaluated-is_ok c c.value resolver m x refl (validated-op c valid) r,
    validated-text c op s e valid,
    evaluated-is_ok (record c { operator = op; value = text s }) (text s) resolver m x refl
        (text_op op e) r,
  )

  -- On numbers, the operators come in opposite pairs: `>` and `<=`, `<` and `>=`, `==` and `!=`
  -- give opposite answers. (With a NaN both of a pair of order tests are false.)
  pub compare_values-negated :
      (ord : IsOrdered F) (op : String) (x y : F)
      → valid_op op ≡ true
      → IsNumber x
      → IsNumber y
      → IsNumber (fl.abs (fl.sub x y))
      → compare_values (negated op) (number y) x y ≡ negate (compare_values op (number y) x y)
  unfolding compare_values
  compare_values-negated ord op x y h nx ny nd =
      let gap = fl.abs (fl.sub x y) in
      let eps = fl.decimal 1 4 in
      valid_op_elim
        (λ o. compare_values (negated o) (number y) x y ≡ negate (compare_values o (number y) x y))
        op h (ground (arith, ord.lt_flip y x)) (ground (arith, ord.lt_flip x y))
        (ground (arith, ord.lt_flip x y)) (ground (arith, ord.lt_flip y x))
        (ground (arith, ord.lt_flip gap eps, ord.decimal_number 1 4))
        (ground (arith, ord.lt_flip gap eps, ord.decimal_number 1 4))
