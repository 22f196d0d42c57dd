-- ===== src/Merge/Regions/Covered.antt =====
-- Every hunk of either side lies in a region.
use obsync.Base.{
  ℕ, zero, suc, ◌≤◌, ◌≡◌, sym, subst, Bool, true, ◌&&◌, List, [], ◌∷◌, ◌++◌, length, arith, leb,
  All, All-append, any,
}
use obsync.Merge.Hunks.{LineHunk}
use obsync.Merge.Regions.{
  EMergeSide, SideHunk, MergeRegion, on_side, insert_hunk, sort_onto, sort_hunks, gather, first_of,
  groups, Cursor, region_of, cursor_after, regions_from, three_way_regions,
}
use obsync.Merge.Regions.Groups.{AreSorted, EndBy}
use obsync.Merge.Regions.Ordered.{first-Gathered, all_hunks, all_hunks-groups}

abbrev pub StartFrom : ℕ → List SideHunk → Type 0
StartFrom low hunks = All (λ h. low ≤ h.base.0) hunks

StartFrom-less : (a b : ℕ) (hunks : List SideHunk) → a ≤ b → StartFrom b hunks → StartFrom a hunks
StartFrom-less a b [] l s = tt
StartFrom-less a b (h ∷ hunks) l s = (omega (arith, l, s.0), StartFrom-less a b hunks l s.1)

AreSorted-StartFrom : (low : ℕ) (hunks : List SideHunk) → AreSorted low hunks → StartFrom low hunks
AreSorted-StartFrom low [] s = tt
AreSorted-StartFrom low (h ∷ hunks) s =
    (s.0, StartFrom-less low h.base.0 hunks s.0 (AreSorted-StartFrom h.base.0 hunks s.1))

All-left {κ} : (P : SideHunk → Type κ) (xs ys : List SideHunk) → All P (xs ++ ys) → All P xs
All-left P [] ys h = tt
All-left P (x ∷ xs) ys h = (h.0, All-left P xs ys h.1)

AreSorted-right :
    (low : ℕ) (xs ys : List SideHunk) → AreSorted low (xs ++ ys) → (n : ℕ) × AreSorted n ys
AreSorted-right low [] ys s = (low, s)
AreSorted-right low (x ∷ xs) ys s = AreSorted-right x.base.0 xs ys s.1

-- Whether a region holds a hunk.
abbrev pub holds_hunk : SideHunk → MergeRegion → Bool
holds_hunk h r = leb r.base.0 h.base.0 && leb h.base.1 r.base.1

abbrev pub is_covered : List MergeRegion → SideHunk → Bool
is_covered regions h = any (holds_hunk h) regions

covered_here :
    (r : MergeRegion) (regions : List MergeRegion) (hunks : List SideHunk)
    → StartFrom r.base.0 hunks
    → EndBy r.base.1 hunks
    → All (λ h. is_covered (r ∷ regions) h ≡ true) hunks
covered_here r regions [] s e = tt
covered_here r regions (h ∷ hunks) s e =
    (ground (arith, s.0, e.0), covered_here r regions hunks s.1 e.1)

covered_later :
    (r : MergeRegion) (regions : List MergeRegion) (hunks : List SideHunk)
    → All (λ h. is_covered regions h ≡ true) hunks
    → All (λ h. is_covered (r ∷ regions) h ≡ true) hunks
covered_later r regions [] a = tt
covered_later r regions (h ∷ hunks) a = (ground (arith, a.0), covered_later r regions hunks a.1)

groups_cover :
    (fuel : ℕ) (touching : Bool) (c : Cursor) (low : ℕ) (hunks : List SideHunk)
    → AreSorted low hunks
    → All
        (λ h. is_covered (regions_from c (groups fuel touching hunks)) h ≡ true)
        (all_hunks (groups fuel touching hunks))
unfolding groups region_of
groups_cover fuel touching c low [] s = tt
groups_cover zero touching c low (h ∷ hunks) s = tt
groups_cover (suc fuel) touching c low (h ∷ hunks) s =
    let m = first-Gathered touching h hunks in
    let g = (gather touching (first_of h) hunks).0 in
    let rest = (gather touching (first_of h) hunks).1 in
    let sorted : AreSorted h.base.0 (g.hunks ++ rest) =
      subst (AreSorted h.base.0) (sym m.all_there) (omega arith, s.1) in
    let (n, later) = AreSorted-right h.base.0 g.hunks rest sorted in
    All-append
      (λ x.
        is_covered
          (region_of c g ∷ regions_from (cursor_after (region_of c g)) (groups fuel touching rest))
          x
        ≡ true)
      g.hunks (all_hunks (groups fuel touching rest))
      (covered_here (region_of c g) _ g.hunks
        (subst (λ t. StartFrom t g.hunks) (sym m.start_same)
          (All-left (λ x. h.base.0 ≤ x.base.0) g.hunks rest
            (AreSorted-StartFrom h.base.0 (g.hunks ++ rest) sorted)))
        m.ended)
      (covered_later (region_of c g) _ _
        (groups_cover fuel touching (cursor_after (region_of c g)) n rest later))

insert_hunk-AreSorted :
    (low : ℕ) (h : SideHunk) (sorted : List SideHunk)
    → low ≤ h.base.0
    → AreSorted low sorted
    → AreSorted low (insert_hunk h sorted)
insert_hunk-AreSorted low h [] l s = (l, tt)
insert_hunk-AreSorted low h (g ∷ sorted) l s =
    ground (arith, insert_hunk-AreSorted g.base.0 h sorted)

sort_onto-AreSorted :
    (hunks sorted : List SideHunk) → AreSorted 0 sorted → AreSorted 0 (sort_onto hunks sorted)
sort_onto-AreSorted [] sorted s = s
sort_onto-AreSorted (h ∷ hunks) sorted s =
    sort_onto-AreSorted hunks (insert_hunk h sorted)
      (insert_hunk-AreSorted 0 h sorted (omega arith) s)

All-insert_hunk :
    (p : SideHunk → Bool) (h : SideHunk) (sorted : List SideHunk)
    → All (λ x. p x ≡ true) (insert_hunk h sorted)
    → (p h ≡ true) × All (λ x. p x ≡ true) sorted
All-insert_hunk p h [] a = (a.0, tt)
All-insert_hunk p h (g ∷ sorted) a = ground (arith, All-insert_hunk p h sorted)

All-sort_onto :
    (p : SideHunk → Bool) (hunks sorted : List SideHunk)
    → All (λ x. p x ≡ true) (sort_onto hunks sorted)
    → All (λ x. p x ≡ true) hunks × All (λ x. p x ≡ true) sorted
All-sort_onto p [] sorted a = (tt, a)
All-sort_onto p (h ∷ hunks) sorted a =
    let (rest, inserted) = All-sort_onto p hunks (insert_hunk h sorted) a in
    let (first, kept) = All-insert_hunk p h sorted inserted in ((first, rest), kept)

-- No hunk is left out of the merge: each hunk of either side lies in the base range of some region.
pub three_way_regions_cover :
    (here there : List LineHunk) (touching : Bool)
    → All
        (λ h. is_covered (three_way_regions here there touching) h ≡ true)
        (on_side EMergeSide.local here ++ on_side EMergeSide.remote there)
three_way_regions_cover here there touching =
    let both = on_side EMergeSide.local here ++ on_side EMergeSide.remote there in
    let hunks = sort_hunks both in
    let c : Cursor = record { base = 0; local = 0; remote = 0 } in
    (All-sort_onto (is_covered (three_way_regions here there touching)) both [] (
      subst (λ xs. All (λ h. is_covered (three_way_regions here there touching) h ≡ true) xs)
        (all_hunks-groups (length hunks) touching hunks (omega arith))
        (groups_cover (length hunks) touching c 0 hunks (sort_onto-AreSorted both [] tt)))).0
