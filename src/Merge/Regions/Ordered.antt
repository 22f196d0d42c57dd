-- ===== src/Merge/Regions/Ordered.antt =====
-- The regions stand in order and hold every hunk.
use obsync.Base.{
  ℕ, zero, suc, ◌≤◌, ◌≡◌, refl, ap, ◌∙◌, Bool, true, false, List, [], ◌∷◌, ◌++◌, length, arith, ltb,
  leb, if◌then◌else◌,
}
use obsync.Merge.Hunks.{LineHunk}
use obsync.Merge.Regions.{
  SideHunk, MergeRegion, Group, gather, first_of, groups, Cursor, region_of, regions_from,
  three_way_regions,
}
use obsync.Merge.Regions.Groups.{IsPast, Gathered, gather-Gathered}

abbrev pub all_hunks : List Group → List SideHunk
all_hunks [] = []
all_hunks (g ∷ gs) = g.hunks ++ all_hunks gs

pub first-Gathered :
    (touching : Bool) (h : SideHunk) (hunks : List SideHunk)
    → Gathered touching (first_of h) hunks (gather touching (first_of h) hunks)
first-Gathered touching h hunks = gather-Gathered touching (first_of h) hunks (omega arith, tt)

-- The loops take every hunk into a group, in the order of the hunks, when the fuel is no less than their number.
pub all_hunks-groups :
    (fuel : ℕ) (touching : Bool) (hunks : List SideHunk)
    → length hunks ≤ fuel
    → all_hunks (groups fuel touching hunks) ≡ hunks
unfolding groups
all_hunks-groups fuel touching [] l = refl
all_hunks-groups zero touching (h ∷ hunks) l = absurd (omega (arith, l))
all_hunks-groups (suc fuel) touching (h ∷ hunks) l =
    let m = first-Gathered touching h hunks in
    ap (λ t. (gather touching (first_of h) hunks).0.hunks ++ t)
      (all_hunks-groups fuel touching (gather touching (first_of h) hunks).1
        (omega (arith, l, m.fewer)))
    ∙ m.all_there

-- Whether a region may follow what ends at a line.
abbrev pub is_apart : Bool → ℕ → ℕ → Bool
is_apart touching end start = if touching then ltb end start else leb end start

abbrev pub IsBefore : Bool → ℕ → List MergeRegion → Type 0
IsBefore touching end [] = Unit
IsBefore touching end (r ∷ regions) = is_apart touching end r.base.0 ≡ true

abbrev pub AreOrdered : Bool → List MergeRegion → Type 0
AreOrdered touching [] = Unit
AreOrdered touching (r ∷ regions) =
    (r.base.0 ≤ r.base.1) × (IsBefore touching r.base.1 regions × AreOrdered touching regions)

IsBefore-groups :
    (fuel : ℕ) (touching : Bool) (c : Cursor) (end : ℕ) (hunks : List SideHunk)
    → IsPast touching end hunks
    → IsBefore touching end (regions_from c (groups fuel touching hunks))
unfolding groups region_of
IsBefore-groups fuel touching c end [] p = tt
IsBefore-groups zero touching c end (h ∷ hunks) p = tt
IsBefore-groups (suc fuel) true c end (h ∷ hunks) p =
    ground (arith, (first-Gathered true h hunks).start_same)
IsBefore-groups (suc fuel) false c end (h ∷ hunks) p =
    ground (arith, (first-Gathered false h hunks).start_same)

groups-AreOrdered :
    (fuel : ℕ) (touching : Bool) (c : Cursor) (hunks : List SideHunk)
    → AreOrdered touching (regions_from c (groups fuel touching hunks))
unfolding groups region_of
groups-AreOrdered fuel touching c [] = tt
groups-AreOrdered zero touching c (h ∷ hunks) = tt
groups-AreOrdered (suc fuel) touching c (h ∷ hunks) =
    let m = first-Gathered touching h hunks in
    let rest = (gather touching (first_of h) hunks).1 in
    (
      omega (arith, m.grown, m.start_same),
      (
        IsBefore-groups fuel touching _ (gather touching (first_of h) hunks).0.end rest m.past,
        groups-AreOrdered fuel touching _ rest,
      ),
    )

-- The regions stand in the order of the base, none inside out, each after the one before it; where touching hunks are grouped, at least one line of the base lies between two regions.
pub three_way_regions-AreOrdered :
    (here there : List LineHunk) (touching : Bool)
    → AreOrdered touching (three_way_regions here there touching)
three_way_regions-AreOrdered here there touching =
    groups-AreOrdered _ touching (record { base = 0; local = 0; remote = 0 }) _
