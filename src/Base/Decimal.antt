-- ===== src/Base/Decimal.antt =====
-- The decimal print of a number, as template literals make it, and that it can be read back.
use obsync.Base.Tests.{ltb, if◌then◌else◌}
use obsync.Base.Lists.{All, All-append}
use obsync.Base.Strings.{Text}
use Prim.Native.Nat.{ℕ, zero, suc, ◌+◌, ◌-◌, ◌*◌, ◌/◌, ◌%◌, ◌≤◌, ◌<◌}
use mathlib.Core.Path.{◌≡◌, refl, ap, sym, ◌∙◌}
use mathlib.Core.Logic.{inl, inr}
use mathlib.Core.List.{[], ◌∷◌, ◌++◌}
use native.Mathlib.Omega.{arith}
use obsync.Base.Tests.{Bool-cases}

-- The fuel bounds the number of digits.
unfoldable pub decimal_digits : ℕ → ℕ → Text
decimal_digits zero n = []
decimal_digits (suc f) n =
    let rest = decimal_digits f (n / 10) in (if ltb n 10 then [] else rest) ++ (48 + n % 10) ∷ []

unfoldable pub decimal : ℕ → Text
unfolding decimal_digits
decimal n = decimal_digits (suc n) n

value_from : ℕ → Text → ℕ
value_from acc [] = acc
value_from acc (c ∷ s) = value_from (acc * 10 + (c - 48)) s

value_from-append :
    (acc : ℕ) (s : Text) (c : ℕ) → value_from acc (s ++ c ∷ []) ≡ value_from acc s * 10 + (c - 48)
unfolding value_from
value_from-append acc [] c = refl
value_from-append acc (d ∷ s) c = value_from-append (acc * 10 + (d - 48)) s c

value_from-decimal_digits : (f n : ℕ) → n < f → value_from 0 (decimal_digits f n) ≡ n
unfolding decimal_digits value_from
value_from-decimal_digits zero n h = elim h [ ]
value_from-decimal_digits (suc f) n h = elim (Bool-cases (ltb n 10)) [
  | inl small ↦ rw small (ground arith)
  | inr large ↦
      rw (large, value_from-append 0 (decimal_digits f (n / 10)) (48 + n % 10))
        (ground (arith, value_from-decimal_digits f (n / 10)))
]

pub decimal-injective : (m n : ℕ) → decimal m ≡ decimal n → m ≡ n
unfolding decimal
decimal-injective m n e =
    sym (value_from-decimal_digits (suc m) m (omega arith))
    ∙ (ap (value_from 0) e ∙ value_from-decimal_digits (suc n) n (omega arith))

abbrev pub IsDigit : ℕ → Type 0
IsDigit c = (48 ≤ c) × (c ≤ 57)

decimal_digits-IsDigit : (f n : ℕ) → All IsDigit (decimal_digits f n)
unfolding decimal_digits
decimal_digits-IsDigit zero n = tt
decimal_digits-IsDigit (suc f) n = elim (Bool-cases (ltb n 10)) [
  | inl small ↦ rw small (omega arith, tt)
  | inr large ↦ rw large (
      All-append IsDigit (decimal_digits f (n / 10)) ((48 + n % 10) ∷ [])
        (decimal_digits-IsDigit f (n / 10)) (omega arith, tt))
]

pub decimal-IsDigit : (n : ℕ) → All IsDigit (decimal n)
unfolding decimal
decimal-IsDigit n = decimal_digits-IsDigit (suc n) n

decimal_example : decimal 1024 ≡ 49 ∷ 48 ∷ 50 ∷ 52 ∷ []
unfolding decimal
decimal_example = refl
