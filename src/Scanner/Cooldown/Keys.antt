-- ===== src/Scanner/Cooldown/Keys.antt =====
-- The key of a rule and a symbol tells them apart, if the rule's ID has no bar.
use Prim.Native.Char.{Char, code}
use text.Mathlib.TextLemmas.{cons-eq-cons, nil-append, cons-append}
use stock_scanner.Prelude.{String, ◌≡◌, ◌≢◌, refl, sym, ap, ◌∙◌, codes, All}
use stock_scanner.Scanner.Cooldown.{key}

abbrev pub IsBarFree : String → Type 0
IsBarFree s = All (λ c. c ≢ b'|') (codes s)

abbrev bar : Char
bar = "|"

key_nil : (s : String) → key String.[] s ≡ String.◌∷◌ bar s
unfolding key
key_nil s = nil-append _ ∙ cons-append bar String.[] s ∙ ap (String.◌∷◌ bar) (nil-append s)

key_cons : (c : Char) (r s : String) → key (String.◌∷◌ c r) s ≡ String.◌∷◌ c (key r s)
unfolding key
key_cons c r s = cons-append c r _

-- Two rules with no bar in their IDs share a key only if they are one rule, with one symbol.
pub key-injective :
    (r r' s s' : String) → IsBarFree r → IsBarFree r' → key r s ≡ key r' s' → (r ≡ r') × (s ≡ s')
key-injective String.[] String.[] s s' f f' e =
    (refl, (cons-eq-cons.0 (sym (key_nil s) ∙ e ∙ key_nil s')).1)
key-injective String.[] (String.◌∷◌ c r') s s' f f' e =
    absurd (f'.0 (sym (ap code (cons-eq-cons.0 (sym (key_nil s) ∙ e ∙ key_cons c r' s')).0)))
key-injective (String.◌∷◌ c r) String.[] s s' f f' e =
    absurd (f.0 (ap code (cons-eq-cons.0 (sym (key_cons c r s) ∙ e ∙ key_nil s')).0))
key-injective (String.◌∷◌ c r) (String.◌∷◌ d r') s s' f f' e =
    let p = cons-eq-cons.0 (sym (key_cons c r s) ∙ e ∙ key_cons d r' s') in
    let rest = key-injective r r' s s' f.1 f'.1 p.1 in (cons-eq-cons.1 (p.0, rest.0), rest.1)
