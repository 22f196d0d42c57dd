-- ===== src/Spaces/Partition/Apart.antt =====
-- The roots of the mounted spaces never overlap, so that every path belongs to one space.
use mathlib.Core.List.{Memᴰ}
use obsync.Base.{
  ◌<◌, ◌≡◌, refl, sym, subst, Bool, true, false, not, ◌&&◌, List, [], ◌∷◌, ◌++◌, arith, Text,
  same_iff, length, any, ◌==◌, All, All-append, if◌then◌else◌,
}
use obsync.Spaces.Space.{Space, vault_space, is_under, owner_from, space_of}
use obsync.Spaces.Space.Owner.{is_under-nested}
use obsync.Spaces.Record.{SpaceRecord, text_lt, insert_by_id, sort_onto, sort_by_id}
use obsync.Spaces.Record.Latest.{All-Memᴰ}
use obsync.Spaces.Partition.{
  overlaps, mount_error, mounted, is_free, mount_all, spaces_of, has_dot_segment,
}

-- No two spaces that are not the vault overlap.
abbrev clash : Space → Space → Bool
clash a b = not (length a.root == 0) && overlaps a.root b

abbrev pub AreApart : List Space → Type 0
AreApart [] = Unit
AreApart (s ∷ spaces) = All (λ t. clash s t ≡ false) spaces × AreApart spaces

clash_sym : (a b : Space) → clash a b ≡ clash b a
clash_sym a b = ground arith

snoc-AreApart :
    (s : Space) (spaces : List Space)
    → any (overlaps s.root) spaces ≡ false
    → AreApart spaces
    → AreApart (spaces ++ s ∷ [])
snoc-AreApart s [] h a = (tt, tt)
snoc-AreApart s (t ∷ spaces) h a = (
  All-append (λ u. clash t u ≡ false) spaces (s ∷ []) a.0 (ground (arith, clash_sym t s), tt),
  snoc-AreApart s spaces (ground arith) a.1,
)

free-apart :
    (root : Text) (spaces : List Space)
    → is_free (mount_error root spaces) ≡ true
    → any (overlaps root) spaces ≡ false
unfolding mount_error
free-apart root spaces h = ground arith

mount_all-AreApart :
    (is_paused : SpaceRecord → Bool) (records : List SpaceRecord) (spaces : List Space)
    → AreApart spaces
    → AreApart (mount_all is_paused records spaces)
unfolding mount_all
mount_all-AreApart is_paused [] spaces a = a
mount_all-AreApart is_paused (r ∷ records) spaces a = ground (
  arith,
  mount_all-AreApart is_paused records spaces a,
  (λ (h : any (overlaps r.root) spaces ≡ false).
      mount_all-AreApart is_paused records (spaces ++ mounted is_paused r ∷ [])
        (snoc-AreApart (mounted is_paused r) spaces h a)),
  free-apart r.root spaces,
)

pub spaces_of-AreApart :
    (records : List SpaceRecord) (is_paused : SpaceRecord → Bool)
    → AreApart (spaces_of records is_paused)
spaces_of-AreApart records is_paused =
    mount_all-AreApart is_paused (sort_by_id records) (vault_space ∷ []) (tt, tt)

-- Two spaces that hold one path overlap.
common-clash :
    (a b : Space) (path : Text)
    → 0 < length a.root
    → 0 < length b.root
    → is_under path a.root ≡ true
    → is_under path b.root ≡ true
    → clash a b ≡ true
common-clash a b path na nb ha hb = ground (
  arith,
  is_under-nested path a.root b.root na ha hb,
  is_under-nested path b.root a.root nb hb ha,
)

-- A space that owns a path keeps it.
owner_from-keeps :
    (s : Space) (spaces : List Space) (path : Text)
    → 0 < length s.root
    → is_under path s.root ≡ true
    → All (λ t. clash s t ≡ false) spaces
    → owner_from s spaces path ≡ s
unfolding owner_from
owner_from-keeps s [] path n h a = refl
owner_from-keeps s (t ∷ spaces) path n h a =
    ground (arith, owner_from-keeps s spaces path n h a.1, common-clash s t path n)

owner_from-apart :
    (owner s : Space) (spaces : List Space) (path : Text)
    → length owner.root ≡ 0
    → AreApart spaces
    → Memᴰ s spaces
    → 0 < length s.root
    → is_under path s.root ≡ true
    → owner_from owner spaces path ≡ s
unfolding owner_from
owner_from-apart owner s [] path o a m n h = elim m [ ]
owner_from-apart owner s (t ∷ spaces) path o a (Memᴰ.head e) n h =
    subst (λ u. owner_from owner (u ∷ spaces) path ≡ s) e
      (ground (
        arith,
        owner_from-keeps s spaces path n h
            (subst (λ u. All (λ v. clash u v ≡ false) spaces) (sym e) a.0),
      ))
owner_from-apart owner s (t ∷ spaces) path o a (Memᴰ.tail m) n h = ground (
  arith,
  owner_from-apart owner s spaces path o a.1 m n h,
  common-clash t s path,
  All-Memᴰ (λ u. clash t u ≡ false) spaces s a.0 m,
)

-- A path below the root of a mounted share belongs to that share, and to no other space: `spaceOf` answers it whatever else is mounted.
pub space_of_unique :
    (records : List SpaceRecord) (is_paused : SpaceRecord → Bool) (s : Space) (path : Text)
    → Memᴰ s (spaces_of records is_paused)
    → 0 < length s.root
    → is_under path s.root ≡ true
    → space_of (spaces_of records is_paused) path ≡ s
space_of_unique records is_paused s path m n h =
    owner_from-apart vault_space s (spaces_of records is_paused) path refl
      (spaces_of-AreApart records is_paused) m n h

any-append-left :
    (p : Space → Bool) (xs ys : List Space) → any p xs ≡ true → any p (xs ++ ys) ≡ true
any-append-left p [] ys h = ground arith
any-append-left p (x ∷ xs) ys h = ground (arith, any-append-left p xs ys)

any-append-last :
    (p : Space → Bool) (xs : List Space) (y : Space) → p y ≡ true → any p (xs ++ y ∷ []) ≡ true
any-append-last p [] y h = ground arith
any-append-last p (x ∷ xs) y h = ground (arith, any-append-last p xs y h)

any-mount_all :
    (p : Space → Bool) (is_paused : SpaceRecord → Bool) (records : List SpaceRecord)
    (spaces : List Space)
    → any p spaces ≡ true
    → any p (mount_all is_paused records spaces) ≡ true
unfolding mount_all
any-mount_all p is_paused [] spaces h = h
any-mount_all p is_paused (r ∷ records) spaces h = ground (
  arith,
  any-mount_all p is_paused records spaces h,
  any-mount_all p is_paused records (spaces ++ mounted is_paused r ∷ [])
      (any-append-left p spaces (mounted is_paused r ∷ []) h),
)

-- A root that a share can have.
abbrev pub is_mountable : Text → Bool
is_mountable root = not (length root == 0) && not (has_dot_segment root)

is_under_same : (root : Text) → is_under root root ≡ true
unfolding is_under
is_under_same root = ground (arith, same_iff root root)

free-or-overlaps :
    (root : Text) (spaces : List Space)
    → is_mountable root ≡ true
    → is_free (mount_error root spaces) ≡ not (any (overlaps root) spaces)
unfolding mount_error
free-or-overlaps root spaces h = ground arith

mount_all-overlaps :
    (is_paused : SpaceRecord → Bool) (r : SpaceRecord) (records : List SpaceRecord)
    (spaces : List Space)
    → Memᴰ r records
    → r.closed ≡ false
    → is_mountable r.root ≡ true
    → any (overlaps r.root) (mount_all is_paused records spaces) ≡ true
unfolding mount_all
mount_all-overlaps is_paused r [] spaces m c h = elim m [ ]
mount_all-overlaps is_paused r (t ∷ records) spaces (Memᴰ.tail m) c h = ground (
  arith,
  mount_all-overlaps is_paused r records spaces m c h,
  mount_all-overlaps is_paused r records (spaces ++ mounted is_paused t ∷ []) m c h,
)
mount_all-overlaps is_paused r (t ∷ records) spaces (Memᴰ.head e) c h =
    subst (λ u. any (overlaps r.root) (mount_all is_paused (u ∷ records) spaces) ≡ true) e
      (ground (
        arith,
        free-or-overlaps r.root spaces h,
        any-mount_all (overlaps r.root) is_paused records spaces,
        any-mount_all (overlaps r.root) is_paused records (spaces ++ mounted is_paused r ∷ []) (
            any-append-last (overlaps r.root) spaces (mounted is_paused r)
              (ground (arith, is_under_same r.root))),
      ))

if-Memᴰ :
    (b : Bool) (r : SpaceRecord) (xs ys : List SpaceRecord)
    → Memᴰ r xs
    → Memᴰ r ys
    → Memᴰ r (if b then xs else ys)
if-Memᴰ true r xs ys m n = m
if-Memᴰ false r xs ys m n = n

inserted_Memᴰ : (r : SpaceRecord) (sorted : List SpaceRecord) → Memᴰ r (insert_by_id r sorted)
inserted_Memᴰ r [] = Memᴰ.head refl
inserted_Memᴰ r (s ∷ sorted) =
    if-Memᴰ (text_lt r.id s.id) r _ _ (Memᴰ.head refl) (Memᴰ.tail (inserted_Memᴰ r sorted))

kept_Memᴰ :
    (r s : SpaceRecord) (sorted : List SpaceRecord) → Memᴰ r sorted → Memᴰ r (insert_by_id s sorted)
kept_Memᴰ r s [] m = elim m [ ]
kept_Memᴰ r s (t ∷ sorted) (Memᴰ.head e) =
    if-Memᴰ (text_lt s.id t.id) r _ _ (Memᴰ.tail (Memᴰ.head e)) (Memᴰ.head e)
kept_Memᴰ r s (t ∷ sorted) (Memᴰ.tail m) =
    if-Memᴰ (text_lt s.id t.id) r _ _ (Memᴰ.tail (Memᴰ.tail m)) (Memᴰ.tail (kept_Memᴰ r s sorted m))

sort_onto_kept :
    (r : SpaceRecord) (records sorted : List SpaceRecord)
    → Memᴰ r sorted
    → Memᴰ r (sort_onto records sorted)
sort_onto_kept r [] sorted m = m
sort_onto_kept r (s ∷ records) sorted m =
    sort_onto_kept r records (insert_by_id s sorted) (kept_Memᴰ r s sorted m)

sort_onto-Memᴰ :
    (r : SpaceRecord) (records sorted : List SpaceRecord)
    → Memᴰ r records
    → Memᴰ r (sort_onto records sorted)
sort_onto-Memᴰ r [] sorted m = elim m [ ]
sort_onto-Memᴰ r (s ∷ records) sorted (Memᴰ.tail m) =
    sort_onto-Memᴰ r records (insert_by_id s sorted) m
sort_onto-Memᴰ r (s ∷ records) sorted (Memᴰ.head e) =
    sort_onto_kept r records (insert_by_id s sorted)
      (subst (λ u. Memᴰ r (insert_by_id u sorted)) e (inserted_Memᴰ r sorted))

-- An open share whose root is a visible folder is left out only for a share that overlaps it: some mounted space overlaps its root, whether itself or another.
spaces_of-overlaps :
    (records : List SpaceRecord) (is_paused : SpaceRecord → Bool) (r : SpaceRecord)
    → Memᴰ r records
    → r.closed ≡ false
    → is_mountable r.root ≡ true
    → any (overlaps r.root) (spaces_of records is_paused) ≡ true
spaces_of-overlaps records is_paused r m c h =
    mount_all-overlaps is_paused r (sort_by_id records) (vault_space ∷ [])
      (sort_onto-Memᴰ r records [] m) c h
