-- ===== src/Base/Strings.antt =====
-- Texts as lists of UTF-16 code units, their equality, and the string methods that the source uses.
use Prim.Native.Nat.{ℕ}
use Prim.Native.Char.{code}
use Prim.Native.String.{String}
use mathlib.Core.Path.{◌≡◌, refl, sym, ap, ap₂}
use mathlib.Core.Logic.{◌↔◌, ◌≢◌, ite}
use mathlib.Core.Bool.{Bool, true, false, ◌&&◌}
use mathlib.Core.List.{List, [], ◌∷◌}
use native.Mathlib.Omega.{arith}
use native.Mathlib.Decide.{ℕ_discrete}

-- A JavaScript string, by its UTF-16 code units.
abbrev pub Text : Type 0
Text = List ℕ

-- A `Uint8Array`.
abbrev pub Bytes : Type 0
Bytes = List ℕ

-- The units of a literal, which is ASCII throughout the source.
abbrev pub codes : String → Text
codes String.[] = []
codes (String.◌∷◌ c s) = code c ∷ codes s

head_of : ℕ → Text → ℕ
head_of d [] = d
head_of d (c ∷ s) = c

tail_of : Text → Text
tail_of [] = []
tail_of (c ∷ s) = s

cons_differ_head : (c d : ℕ) (s t : Text) → c ≢ d → c ∷ s ≢ d ∷ t
unfolding head_of
cons_differ_head c d s t n e = n (ap (head_of c) e)

cons_differ_tail : (c d : ℕ) (s t : Text) → s ≢ t → c ∷ s ≢ d ∷ t
unfolding tail_of
cons_differ_tail c d s t n e = n (ap tail_of e)

nil-ne-cons : (c : ℕ) (s : Text) → [] ≢ c ∷ s
nil-ne-cons c s e = cc

unfoldable pub text_dec : Discrete Text
unfolding nil-ne-cons cons_differ_head cons_differ_tail
text_dec [] [] = yes refl
text_dec [] (d ∷ t) = no (nil-ne-cons d t)
text_dec (c ∷ s) [] = no (λ e. nil-ne-cons c s (sym e))
text_dec (c ∷ s) (d ∷ t) =
    let rest = text_dec s t in
    elim (ℕ_discrete c d) [
      | yes p ↦ elim rest [ yes q ↦ yes (ap₂ ◌∷◌ p q) | no n ↦ no (cons_differ_tail c d s t n) ]
      | no n ↦ no (cons_differ_head c d s t n)
    ]

-- `===` on strings. Shut, a split on it yields the equation or its negation.
abbrev pub same : Text → Text → Bool
same a b = ite (text_dec a b) true false

pub same_iff : (a b : Text) → (same a b ≡ true) ↔ (a ≡ b)
same_iff a b = ground arith

-- `startsWith`.
abbrev pub starts_with : Text → Text → Bool
starts_with [] s = true
starts_with (c ∷ p) [] = false
starts_with (c ∷ p) (d ∷ s) = ite (ℕ_discrete d c) true false && starts_with p s

same_example : same (codes "notes") (codes "notes") ≡ true
unfolding text_dec ℕ_discrete
same_example = refl
