-- ===== src/Merge/Hunks/Patch.antt =====
-- The hunks of an edit script are a patch: what lies between them is common to both texts.
use obsync.Base.{
  ℕ, ◌+◌, ◌≡◌, refl, ap, ap₂, subst, ◌∙◌, Bool, true, false, ◌||◌, none, some, List, [], ◌∷◌, ◌++◌,
  Text, length, arith, ◌==◌, if◌then◌else◌, append_assoc, append-nil, length-append,
}
use obsync.Merge.Hunks.{
  LineRange, LineHunk, ArrayChange, touches, extended, hunks_from, hunks_from_changes,
}

-- The texts before and after a script.
abbrev pub olds : List ArrayChange → List Text
olds [] = []
olds (c ∷ changes) = (if c.added then [] else c.value) ++ olds changes

abbrev pub news : List ArrayChange → List Text
news [] = []
news (c ∷ changes) = (if c.removed then [] else c.value) ++ news changes

-- From two places on, the hunks turn the one text into the other: up to each hunk both are equal.
abbrev pub IsPatch : List Text → List Text → ℕ → ℕ → List LineHunk → Type 0
IsPatch base lines base_at line_at [] = base ≡ lines
IsPatch base lines base_at line_at (h ∷ hunks) =
    (common : List Text) × (removed : List Text) × (added : List Text) × (base' : List Text)
    × (lines' : List Text) × (base ≡ common ++ (removed ++ base'))
    × (lines ≡ common ++ (added ++ lines'))
    × (h.base ≡ (base_at + length common, base_at + length common + length removed))
    × (h.lines ≡ (line_at + length common, line_at + length common + length added))
    × IsPatch base' lines' h.base.1 h.lines.1 hunks

-- What the last hunk replaces, and what followed it so far.
record Held (base_at line_at : ℕ) (c r a k : List Text) (h : LineHunk) : Type 0 where
  base_range : h.base ≡ (base_at + length c, base_at + length c + length r)
  line_range : h.lines ≡ (line_at + length c, line_at + length c + length a)

empty : (k : List Text) → (length k == 0) ≡ true → k ≡ []
empty [] h = refl
empty (x ∷ k) h = ground arith

unit_length : (n : ℕ) (k : List Text) → (n == n + length k) ≡ (length k == 0)
unit_length n k = ground arith

if_either :
    {A : Type 0} (P : A → Type 0) (b : Bool) (x y : A)
    → (b ≡ true → P x)
    → (b ≡ false → P y)
    → P (if b then x else y)
if_either P true x y f g = f refl
if_either P false x y f g = g refl

-- What one change has of each text.
abbrev old_part : ArrayChange → List Text
old_part c = if c.added then [] else c.value

abbrev new_part : ArrayChange → List Text
new_part c = if c.removed then [] else c.value

advance :
    (b : Bool) (n : ℕ) (v : List Text)
    → (if b then n else n + length v) ≡ n + length (if b then [] else v)
advance true n v = omega arith
advance false n v = refl

both_kept : (x : ArrayChange) → (x.added || x.removed) ≡ false → old_part x ≡ new_part x
both_kept x e = ground arith

-- The patch after a hunk that ended before `k`.
abbrev Goal :
    List Text
    → List Text
    → List Text
    → List Text
    → ℕ
    → ℕ
    → List ArrayChange
    → List LineHunk
    → Type 0
Goal c r a k base_at line_at changes hunks =
    IsPatch (c ++ (r ++ (k ++ olds changes))) (c ++ (a ++ (k ++ news changes))) base_at line_at
      hunks

regroup_hunk : (c r k o z : List Text) → k ≡ [] → c ++ ((r ++ o) ++ z) ≡ c ++ (r ++ (k ++ (o ++ z)))
regroup_hunk c r k o z e = rw e (ap (λ t. c ++ t) (append_assoc r o z))

regroup_gap : (c r k o z : List Text) → c ++ (r ++ ((k ++ o) ++ z)) ≡ c ++ (r ++ (k ++ (o ++ z)))
regroup_gap c r k o z = ap (λ t. c ++ (r ++ t)) (append_assoc k o z)

IsPatch-same :
    {b b' l l' : List Text} (base_at line_at : ℕ) (hunks : List LineHunk)
    → b ≡ b'
    → l ≡ l'
    → IsPatch b l base_at line_at hunks
    → IsPatch b' l' base_at line_at hunks
IsPatch-same {b' = b'} {l = l} x y hunks e f p =
    subst (λ t. IsPatch b' t x y hunks) f (subst (λ t. IsPatch t l x y hunks) e p)

pair_of : (p : LineRange) (m n : ℕ) → p.0 ≡ m → p.1 ≡ n → p ≡ (m, n)
pair_of p m n e f = ap₂ (λ x y. (x, y)) e f

-- A change that extends the last hunk.
extended-Held :
    (x : ArrayChange) (h : LineHunk) (c r a : List Text) (base_at line_at B L B' L' : ℕ)
    → Held base_at line_at c r a [] h
    → B' ≡ h.base.1 + length (old_part x)
    → L' ≡ h.lines.1 + length (new_part x)
    → Held base_at line_at c (r ++ old_part x) (a ++ new_part x) [] (extended (some h) B L B' L')
extended-Held x h c r a base_at line_at B L B' L' held eb el = record {
  base_range =
      pair_of _ _ _ (ap (λ p. p.0) held.base_range)
        (omega (arith, eb, ap (λ p. p.1) held.base_range, length-append r (old_part x)));
  line_range =
      pair_of _ _ _ (ap (λ p. p.0) held.line_range)
        (omega (arith, el, ap (λ p. p.1) held.line_range, length-append a (new_part x)));
}

started-Held :
    (x : ArrayChange) (c : List Text) (base_at line_at B L B' L' : ℕ)
    → B ≡ base_at + length c
    → L ≡ line_at + length c
    → B' ≡ B + length (old_part x)
    → L' ≡ L + length (new_part x)
    → Held base_at line_at c
        (old_part x)
        (new_part x)
        []
        (record { base = (B, B'); lines = (L, L') })
started-Held x c base_at line_at B L B' L' eb el fb fl = record {
  base_range = pair_of _ _ _ eb (omega (arith, eb, fb));
  line_range = pair_of _ _ _ el (omega (arith, el, fl));
}

Held-any :
    (base_at line_at : ℕ) (c r a k j : List Text) (h : LineHunk)
    → Held base_at line_at c r a k h
    → Held base_at line_at c r a j h
Held-any base_at line_at c r a k j h held = record {
  base_range = held.base_range;
  line_range = held.line_range;
}

touch_gap :
    (h : LineHunk) (B L : ℕ) (k : List Text)
    → B ≡ h.base.1 + length k
    → touches (some h) B L ≡ true
    → k ≡ []
touch_gap h B L k e t = empty k (ground arith)

hunks_from-after :
    (changes : List ArrayChange) (h : LineHunk) (c r a k : List Text) (base_at line_at B L : ℕ)
    → Held base_at line_at c r a k h
    → B ≡ h.base.1 + length k
    → L ≡ h.lines.1 + length k
    → Goal c r a k base_at line_at changes (hunks_from changes B L (some h))
unfolding hunks_from
hunks_from-after [] h c r a k base_at line_at B L held eb el = (
  c,
  r,
  a,
  k,
  k,
  ap (λ t. c ++ (r ++ t)) (append-nil k),
  ap (λ t. c ++ (a ++ t)) (append-nil k),
  held.base_range,
  held.line_range,
  refl,
)
hunks_from-after (x ∷ changes) h c r a k base_at line_at B L held eb el =
    if_either (Goal c r a k base_at line_at (x ∷ changes)) (x.added || x.removed) _ _
      (λ e.
        if_either (Goal c r a k base_at line_at (x ∷ changes)) (touches (some h) B L) _ _
          (λ t.
            let z = touch_gap h B L k eb t in
            IsPatch-same _ _ (hunks_from changes B' L' (some (extended (some h) B L B' L')))
              (regroup_hunk c r k (old_part x) (olds changes) z)
              (regroup_hunk c a k (new_part x) (news changes) z)
              (hunks_from-after changes (extended (some h) B L B' L') c (r ++ old_part x)
                (a ++ new_part x) [] base_at line_at B' L'
                (extended-Held x h c r a base_at line_at B L B' L'
                  (Held-any base_at line_at c r a k [] h held) (omega (arith, fb, eb, ap length z))
                  (omega (arith, fl, el, ap length z)))
                (omega arith) (omega arith)))
          (λ t. (
            c,
            r,
            a,
            k ++ (old_part x ++ olds changes),
            k ++ (new_part x ++ news changes),
            refl,
            refl,
            held.base_range,
            held.line_range,
            hunks_from-after changes (record { base = (B, B'); lines = (L, L') }) k (old_part x)
                (new_part x) [] h.base.1 h.lines.1 B' L'
                (started-Held x k h.base.1 h.lines.1 B L B' L' eb el fb fl) (omega arith)
                (omega arith),
          )))
      (λ e.
        IsPatch-same _ _ (hunks_from changes B' L' (some h))
          (regroup_gap c r k (old_part x) (olds changes))
          (regroup_gap c a k (old_part x) (news changes)
            ∙ ap (λ o. c ++ (a ++ (k ++ (o ++ news changes)))) (both_kept x e))
          (hunks_from-after changes h c r a (k ++ old_part x) base_at line_at B' L'
            (Held-any base_at line_at c r a k (k ++ old_part x) h held)
            (omega (arith, fb, eb, length-append k (old_part x)))
            (omega (arith, fl, el, length-append k (old_part x), ap length (both_kept x e)))))
  where
    B' : ℕ
    B' = if x.added then B else B + length x.value

    L' : ℕ
    L' = if x.removed then L else L + length x.value

    fb : B' ≡ B + length (old_part x)
    fb = advance x.added B x.value

    fl : L' ≡ L + length (new_part x)
    fl = advance x.removed L x.value

hunks_from-before :
    (changes : List ArrayChange) (k : List Text) (base_at line_at B L : ℕ)
    → B ≡ base_at + length k
    → L ≡ line_at + length k
    → IsPatch (k ++ olds changes) (k ++ news changes) base_at line_at (hunks_from changes B L none)
unfolding hunks_from
hunks_from-before [] k base_at line_at B L eb el = refl
hunks_from-before (x ∷ changes) k base_at line_at B L eb el =
    if_either (IsPatch (k ++ olds (x ∷ changes)) (k ++ news (x ∷ changes)) base_at line_at)
      (x.added || x.removed) _ _
      (λ e.
        hunks_from-after changes (record { base = (B, B'); lines = (L, L') }) k (old_part x)
          (new_part x) [] base_at line_at B' L'
          (started-Held x k base_at line_at B L B' L' eb el fb fl) (omega arith) (omega arith))
      (λ e.
        IsPatch-same _ _ (hunks_from changes B' L' none)
          (append_assoc k (old_part x) (olds changes))
          (append_assoc k (old_part x) (news changes)
            ∙ ap (λ o. k ++ (o ++ news changes)) (both_kept x e))
          (hunks_from-before changes (k ++ old_part x) base_at line_at B' L'
            (omega (arith, fb, eb, length-append k (old_part x)))
            (omega (arith, fl, el, length-append k (old_part x), ap length (both_kept x e)))))
  where
    B' : ℕ
    B' = if x.added then B else B + length x.value

    L' : ℕ
    L' = if x.removed then L else L + length x.value

    fb : B' ≡ B + length (old_part x)
    fb = advance x.added B x.value

    fl : L' ≡ L + length (new_part x)
    fl = advance x.removed L x.value

-- The hunks of an edit script are a patch of its old text into its new one, from the two places at which it starts: they stand in order with what lies between them common to both texts, each covers the lines that it replaces and the lines that replace them, and no line is left over.
pub hunks_from_changes-IsPatch :
    (changes : List ArrayChange) (base_from line_from : ℕ)
    → IsPatch
        (olds changes)
        (news changes)
        base_from
        line_from
        (hunks_from_changes changes base_from line_from)
hunks_from_changes-IsPatch changes base_from line_from =
    hunks_from-before changes [] base_from line_from base_from line_from (omega arith) (omega arith)
