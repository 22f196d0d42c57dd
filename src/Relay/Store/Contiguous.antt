-- ===== src/Relay/Store/Contiguous.antt =====
-- Deltas that are numbered without a gap.
use obsync.Base.{
  ℕ, zero, suc, ◌+◌, ◌≤◌, ◌≡◌, refl, sym, subst, max, List, [], ◌∷◌, ◌++◌, arith, length, drop,
}
use obsync.Relay.Store.{Delta, last_seq, insert_delta, after}

abbrev pub IsContiguous : ℕ → List Delta → Type 0
IsContiguous from [] = Unit
IsContiguous from (x ∷ xs) = (x.seq ≡ suc from) × IsContiguous (suc from) xs

pub last_seq-IsContiguous :
    (from : ℕ) (xs : List Delta) → IsContiguous from xs → max (last_seq xs) from ≡ from + length xs
last_seq-IsContiguous from [] h = omega arith
last_seq-IsContiguous from (x ∷ xs) h = omega (arith, last_seq-IsContiguous (suc from) xs h.1)

pub insert_delta-IsContiguous :
    (from : ℕ) (xs : List Delta) (δ : Delta)
    → IsContiguous from xs
    → δ.seq ≡ suc (from + length xs)
    → (insert_delta δ xs ≡ xs ++ δ ∷ []) × IsContiguous from (xs ++ δ ∷ [])
unfolding insert_delta
insert_delta-IsContiguous from [] δ h e =
    let e' : δ.seq ≡ suc from = omega arith in (refl, (e', tt))
insert_delta-IsContiguous from (x ∷ xs) δ h e =
    let rest = insert_delta-IsContiguous (suc from) xs δ h.1 (omega arith) in
    (ground (arith, rest), (h.0, rest.1))

after_all :
    (from since : ℕ) (xs : List Delta) → IsContiguous from xs → since ≤ from → after since xs ≡ xs
after_all from since [] h k = refl
after_all from since (x ∷ xs) h k = ground (arith, after_all (suc from) since xs h.1)

pub after-drop :
    (from n : ℕ) (xs : List Delta) → IsContiguous from xs → after (from + n) xs ≡ drop n xs
after-drop from zero xs h = after_all from (from + 0) xs h (omega arith)
after-drop from (suc n) [] h = refl
after-drop from (suc n) (x ∷ xs) h =
    let e : from + suc n ≡ suc from + n = omega arith in
    subst (λ m. after m (x ∷ xs) ≡ drop n xs) (sym e)
      (ground (arith, after-drop (suc from) n xs h.1))

pub drop-IsContiguous :
    (from n : ℕ) (xs : List Delta)
    → IsContiguous from xs
    → n ≤ length xs
    → IsContiguous (from + n) (drop n xs)
drop-IsContiguous from zero xs h k = let e : from + 0 ≡ from = omega arith in rw e h
drop-IsContiguous from (suc n) [] h k = absurd (omega arith)
drop-IsContiguous from (suc n) (x ∷ xs) h k =
    let e : from + suc n ≡ suc from + n = omega arith in
    rw e (drop-IsContiguous (suc from) n xs h.1 (omega arith))
