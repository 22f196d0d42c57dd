-- ===== src/Spaces/Space/Owner.antt =====
-- Which space a path belongs to.
use obsync.Base.{
  ◌+◌, ◌≤◌, ◌<◌, ◌≡◌, refl, sym, ap, ◌∙◌, ◌⊎◌, inl, inr, true, [], ◌∷◌, ◌++◌, arith, Text, same_iff,
  starts_with, length, length-append, dec_lt, subst,
}
use obsync.Spaces.Space.{slash, is_under}

pub starts_with-append : (p s : Text) → starts_with p (p ++ s) ≡ true
starts_with-append [] s = refl
starts_with-append (c ∷ p) s = ground (arith, starts_with-append p s)

-- Two prefixes of one text: the shorter is one of the longer.
starts_with_shorter :
    (a b p : Text)
    → starts_with a p ≡ true
    → starts_with b p ≡ true
    → length a ≤ length b
    → starts_with a b ≡ true
starts_with_shorter [] b p ha hb h = refl
starts_with_shorter (c ∷ a) [] p ha hb h = absurd (omega (arith, h))
starts_with_shorter (c ∷ a) (d ∷ b) [] ha hb h = ground arith
starts_with_shorter (c ∷ a) (d ∷ b) (x ∷ p) ha hb h = ground (arith, starts_with_shorter a b p)

starts_with_same : (a : Text) → starts_with a a ≡ true
starts_with_same [] = refl
starts_with_same (c ∷ a) = ground (arith, starts_with_same a)

-- A path starts with `a` and is no longer than it: it is `a`.
starts_with_whole : (a p : Text) → starts_with a p ≡ true → length p ≤ length a → a ≡ p
starts_with_whole [] [] ha h = refl
starts_with_whole [] (c ∷ p) ha h = absurd (omega (arith, h))
starts_with_whole (c ∷ a) [] ha h = ground arith
starts_with_whole (c ∷ a) (d ∷ p) ha h = ground (arith, starts_with_whole a p)

starts_with_trans :
    (a b p : Text) → starts_with a b ≡ true → starts_with b p ≡ true → starts_with a p ≡ true
starts_with_trans [] b p ha hb = refl
starts_with_trans (c ∷ a) [] p ha hb = ground arith
starts_with_trans (c ∷ a) (d ∷ b) [] ha hb = ground arith
starts_with_trans (c ∷ a) (d ∷ b) (x ∷ p) ha hb = ground (arith, starts_with_trans a b p)

starts_with-length : (a p : Text) → starts_with a p ≡ true → length a ≤ length p
starts_with-length [] p h = omega arith
starts_with-length (c ∷ a) [] h = ground arith
starts_with-length (c ∷ a) (d ∷ p) h = ground (arith, starts_with-length a p)

-- In the folder itself or below it.
abbrev IsIn : Text → Text → Type 0
IsIn path root = (path ≡ root) ⊎ (starts_with (slash root) path ≡ true)

is_under-IsIn : (path root : Text) → 0 < length root → is_under path root ≡ true → IsIn path root
unfolding is_under
is_under-IsIn path root n h = ground (arith, same_iff path root)

IsIn-is_under : (path root : Text) → IsIn path root → is_under path root ≡ true
unfolding is_under
IsIn-is_under path root (inl e) = ground (arith, same_iff path root)
IsIn-is_under path root (inr e) = ground arith

pub length-slash : (root : Text) → length (slash root) ≡ length root + 1
length-slash root = length-append root (47 ∷ [])

below-IsIn :
    (path a b : Text)
    → starts_with (slash a) path ≡ true
    → starts_with (slash b) path ≡ true
    → length a ≤ length b
    → IsIn b a
below-IsIn path a b ha hb h = elim (dec_lt (length a) (length b)) [
  | yes l ↦ inr (
      starts_with_shorter (slash a) b path ha
        (starts_with_trans b (slash b) path (starts_with-append b (47 ∷ [])) hb)
        (omega (arith, length-slash a, l)))
  | no n ↦ inl (
      sym (
        starts_with_whole a b
          (starts_with_shorter a b path
            (starts_with_trans a (slash a) path (starts_with-append a (47 ∷ [])) ha)
            (starts_with_trans b (slash b) path (starts_with-append b (47 ∷ [])) hb) h)
          (omega (arith, n, h))))
]

-- Of two folders that hold one path, the deeper is in the other.
IsIn-nested : (path a b : Text) → IsIn path a → IsIn path b → length a ≤ length b → IsIn b a
IsIn-nested path a b (inl p) (inl q) h = inl (sym q ∙ p)
IsIn-nested path a b (inl p) (inr q) h =
    absurd (omega (arith, starts_with-length (slash b) path q, length-slash b, ap length p, h))
IsIn-nested path a b (inr p) (inl q) h = inr (subst (λ t. starts_with (slash a) t ≡ true) q p)
IsIn-nested path a b (inr p) (inr q) h = below-IsIn path a b p q h

pub is_under-nested :
    (path a b : Text)
    → 0 < length a
    → is_under path a ≡ true
    → is_under path b ≡ true
    → length a ≤ length b
    → is_under b a ≡ true
is_under-nested path a b n ha hb h = IsIn-is_under b a (
    IsIn-nested path a b (is_under-IsIn path a n ha) (is_under-IsIn path b (omega (arith, n, h)) hb)
      h)
