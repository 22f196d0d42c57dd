-- ===== src/Merge/Regions.antt =====
-- `threeWayRegions` of packages/plugin/src/sync/merge-model.ts, from the hunks of both sides.
pub mod Groups
pub mod Ordered
pub mod Covered
use obsync.Base.{
  ℕ, zero, suc, ◌+◌, ◌-◌, max, Bool, true, false, not, ◌&&◌, ◌||◌, Option, none, some, List, [],
  ◌∷◌, ◌++◌, map, length, filter, any, ltb, ◌==◌, if◌then◌else◌,
}
use obsync.Merge.Hunks.{LineRange, LineHunk}

pub data EMergeSide : Type 0 where
  local : EMergeSide
  remote : EMergeSide

abbrev pub is_side : EMergeSide → EMergeSide → Bool
is_side EMergeSide.local EMergeSide.local = true
is_side EMergeSide.remote EMergeSide.remote = true
is_side _ _ = false

pub record SideHunk : Type 0 where
  pub side : EMergeSide
  pub base : LineRange
  pub lines : LineRange

pub record MergeRegion : Type 0 where
  pub base : LineRange
  pub local : LineRange
  pub remote : LineRange
  pub changed_local : Bool
  pub changed_remote : Bool

abbrev pub on_side : EMergeSide → List LineHunk → List SideHunk
on_side side hunks = map (λ h. record { side = side; base = h.base; lines = h.lines }) hunks

-- `sort((a, b) => a.base[0] - b.base[0])`, stable.
abbrev pub insert_hunk : SideHunk → List SideHunk → List SideHunk
insert_hunk h [] = h ∷ []
insert_hunk h (g ∷ hunks) = if ltb h.base.0 g.base.0 then h ∷ g ∷ hunks else g ∷ insert_hunk h hunks

abbrev pub sort_onto : List SideHunk → List SideHunk → List SideHunk
sort_onto [] sorted = sorted
sort_onto (h ∷ hunks) sorted = sort_onto hunks (insert_hunk h sorted)

abbrev pub sort_hunks : List SideHunk → List SideHunk
sort_hunks hunks = sort_onto hunks []

unfoldable pub joins : SideHunk → ℕ → ℕ → Bool → Bool
joins h start end group_touching =
    if not (h.base.0 == end)
    then ltb h.base.0 end
    else group_touching || (start == end && h.base.1 == end)

-- What the inner loop gathers: where the group starts and ends, and its hunks.
pub record Group : Type 0 where
  pub start : ℕ
  pub end : ℕ
  pub hunks : List SideHunk

-- The inner loop past the group's first hunk: the group, and the hunks after it.
unfoldable pub gather : Bool → Group → List SideHunk → Group × List SideHunk
unfolding joins
gather group_touching g [] = (g, [])
gather group_touching g (h ∷ hunks) =
    let joined =
      gather group_touching (record g { end = max g.end h.base.1; hunks = g.hunks ++ h ∷ [] })
        hunks in
    if joins h g.start g.end group_touching then joined else (g, h ∷ hunks)

abbrev pub first_of : SideHunk → Group
first_of h = record { start = h.base.0; end = max h.base.0 h.base.1; hunks = h ∷ [] }

-- The outer loop's groups. Each turn takes a hunk at least, so that the number of hunks is fuel enough.
unfoldable pub groups : ℕ → Bool → List SideHunk → List Group
unfolding gather
groups fuel group_touching [] = []
groups zero group_touching (h ∷ hunks) = []
groups (suc fuel) group_touching (h ∷ hunks) =
    let (g, rest) = gather group_touching (first_of h) hunks in g ∷ groups fuel group_touching rest

pub record Cursor : Type 0 where
  pub base : ℕ
  pub local : ℕ
  pub remote : ℕ

abbrev pub cursor_of : EMergeSide → Cursor → ℕ
cursor_of EMergeSide.local c = c.local
cursor_of EMergeSide.remote c = c.remote

-- The last of the hunks that follow one.
abbrev pub last_after : SideHunk → List SideHunk → SideHunk
last_after h [] = h
last_after h (g ∷ hunks) = last_after g hunks

-- `sideRange`. A subtraction stands after what it is taken from was added, where the source may pass
-- through a negative offset.
abbrev pub range_of : EMergeSide → Cursor → ℕ → ℕ → List SideHunk → LineRange
range_of side c start end [] =
    ((start + cursor_of side c) - c.base, (end + cursor_of side c) - c.base)
range_of side c start end (first ∷ own) =
    let last = last_after first own in
    ((first.lines.0 + start) - first.base.0, (last.lines.1 + end) - last.base.1)

abbrev pub own_hunks : EMergeSide → Group → List SideHunk
own_hunks side g = filter (λ h. is_side h.side side) g.hunks

unfoldable pub side_range : EMergeSide → Cursor → Group → LineRange
side_range side c g = range_of side c g.start g.end (own_hunks side g)

unfoldable pub region_of : Cursor → Group → MergeRegion
unfolding side_range
region_of c g = record {
  base = (g.start, g.end);
  local = side_range EMergeSide.local c g;
  remote = side_range EMergeSide.remote c g;
  changed_local = any (λ h. is_side h.side EMergeSide.local) g.hunks;
  changed_remote = any (λ h. is_side h.side EMergeSide.remote) g.hunks;
}

abbrev pub cursor_after : MergeRegion → Cursor
cursor_after r = record { base = r.base.1; local = r.local.1; remote = r.remote.1 }

abbrev pub regions_from : Cursor → List Group → List MergeRegion
regions_from c [] = []
regions_from c (g ∷ gs) = region_of c g ∷ regions_from (cursor_after (region_of c g)) gs

-- `threeWayRegions`, from each side's hunks.
abbrev pub three_way_regions : List LineHunk → List LineHunk → Bool → List MergeRegion
three_way_regions here there group_touching =
    let hunks = sort_hunks (on_side EMergeSide.local here ++ on_side EMergeSide.remote there) in
    regions_from (record { base = 0; local = 0; remote = 0 })
      (groups (length hunks) group_touching hunks)
